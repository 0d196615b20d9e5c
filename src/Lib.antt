-- ===== src/Lib.antt =====
-- A model of the update system of this repository: the deployment log, the daemon's decisions about
-- updates, the trust chain, the choice of the root image and of the firmware at boot, and the update
-- agent that a desktop asks.
--
-- How the parts interact. The early boot (boot/) finds the media, maps the root image under the
-- root hash of the signed command line, and hands over. The daemon (internal/otad) checks a
-- manifest with the trust chain (internal/trust), stages a release, and moves the deployment log
-- (internal/deployment) from one state to the next; the log says what is current, what is on trial
-- and what to fall back to. The daemon tells the loader through a boot-state file on the ESP.
-- Staging goes from the network to the next slots, then to the log; the first healthy boot of a
-- candidate promotes the slots; the boot loader, the recovery image and the firmware bundles have
-- files and trials of their own. The agent (cmd/updated) checks the signed feed, offers a release under
-- a token of its digest, and stages exactly that digest once a client sends the token back. The daemon's
-- commands (cmd/atomd) join the parts; as a service it leaves a line of history for each confirmed boot and
-- each staged release (internal/audit).
--
-- Which file models what:
--   Prelude     Go's strings as lists of bytes, `int` as an integer with its wrap-around written out,
--               strconv's Atoi, ParseUint and decimal output, maps as association lists,
--               hexadecimal text (Hex, HexLaws), facts on the bits of a byte (Bits), and
--               sort.Strings (Sorting).
--   System      files by path, and system calls in sequence with a schedule of faults: each call works,
--               fails, or is where the power is lost. Triple is a program logic for such sequences,
--               Returns a logic of what they return, Keeps one of what holds of the files
--               wherever a sequence stops, Steady one for sequences where no call fails but the
--               power may be lost, Finds one of what a sequence that only reads returns with the files
--               that it reads, Runs one of what a run that ends with a result went through, Durable the
--               lemma on replacing a file by a temporary one and a rename.
--   Deployment  internal/deployment: State the records (deployment.go), Transition the transitions
--               (transition.go), Slots PickBootTarget (slots.go), Wal Load and Save (wal.go). History
--               takes as steps the transitions, the record of a verity hash at staging (stage.go), and what
--               the daemon itself writes to the log (otad.go), with what a device can reach that
--               starts from New of a named release.
--   Otad        internal/otad: Version (stage.go: versionNum, isDowngrade; otad.go:
--               sameRelease), Manifest (manifest.go), Hardware (hwselect.go), Counter
--               (counter.go), BootState and Slots (slots.go), Identity (otad.go: bootedIdentity,
--               pendingUpdateError), Health (otad.go: RunHealthChecks), Daemon (otad.go:
--               Init, BootSuccess, Deploy, Rollback; slots.go: SyncBootState), Confirm (otad.go:
--               FirmwareBootConfirm and FirmwareBootConfirmAll), Fetch (fetch.go), Trusted
--               (stage.go: fetchVerifiedManifest; manifest.go: VerifySHA256; durable.go), Stage
--               (stage.go), Promote (promote.go), Recovery (recovery.go), Anchor (fwanchor.go),
--               Loader (loader.go: markers and versions) with Loader.Image (StageLoader,
--               HandleLoaderCandidate, RepairLoader) and Loader.Slot (KernelcacheVersion,
--               ReadBootInfo). Outside is the record of what the daemon uses of the world
--               outside its files.
--   Trust       internal/trust/trust.go: Verify, VerifyCert, CheckRevocation.
--   Boot        boot: Verity (verity.go), Kernel, Media, Ranking and Root (root.go), Firmware
--               (firmware.go).
--   Signing     internal/signing/signing.go: certificates, revocation lists, key files and signatures, and
--               in Release the manifest of a release. Certified and Hashed join them to the device's
--               checks.
--   Agent       cmd/updated: Status and Store (main.go: Status, statusStore), Feed (main.go: check
--               with what it calls), Requests (main.go: stage, claimReboot, newUpdateServer), Loader
--               (loader.go; main.go: startupCheck), History (history.go). Consent is the
--               specification of what the requests promise, Server the requests as steps that
--               interleave.
--   Diag        internal/diag/diag.go: the report on a failed boot.
--   Audit       internal/audit/audit.go: the history of updates.
--   Atomd       cmd/atomd: the commands (main.go, loader.go) and the daemon.
--   Tests       runs at concrete inputs.
-- A function keeps its name in snake_case. A method that changes its receiver takes the state last and
-- returns the next one, beside its result where it has one; the clock is an argument. An `error` is
-- `none`, a constructor or a failed outcome, without the text that is formatted into it. Fields called
-- Data in boot/root.go are called `image`.
--
-- Bounds and fuel. Each loop of the source runs over a list or a bounded count, so it is recursion on
-- that list or count; the attempts of SelectRoot are the count of its configuration, and the loop of a
-- download the number of redirects that it still follows, which is 5 at the start as in the source. The
-- one definition on fuel is the loop of CompactWithin: its fuel of 11 is enough, since the number
-- of lines goes down by 4 from 40 and the loop ends at 0.
--
-- What is assumed of code outside the repository, as parameters: encoding/json, Ed25519, base64 and
-- the parse of dates (records Json, Decoder and Crypto), the kernel behind the record Ops of
-- boot/root.go, crypto/sha256, the HTTP client and its parser of URLs (record Network), debug/pe, the
-- generation of keys and the encoders of the release side (record Signer), the entries of the health
-- directory and the run of its programs (record Health), the shell commands of CommandCounter, the client
-- of the feed (record Client), the JSON of the agent and of the histories (records StatusJson, HistoryJson
-- and EventJson), gzip, base64 and sha256 of a report (record Encoders), the kernel at boot as
-- boot/firmware.go uses it (record FwOps), what flock answers, and how often the schedule fires. The
-- loops of stage over the bundles are run over the bundles that match the machine, and fileSHA256,
-- VerifySHA256 and readKeyFile read a file by one call. A directory is there where its stat works. A
-- failed or lost call has no effect, calls reach the disk in their order, and a new temporary file has
-- a name of its own. So what is said of files that the source writes without fsync (the counter, the status
-- and the histories) covers a process that ends between two calls, and a loss of power only where the
-- disk keeps that order. strings.TrimSpace, ToLower and EqualFold are those of ASCII texts, and a line of
-- the boot-state file is below 64 KiB.
--
-- What is not modelled: device-mapper and loop ioctls, mounts, the overlays of boot/layout.go and the
-- rescue shell, since they are input and output; the parse of flags and requests, the text of Status, the
-- report of a download's progress, the command line of the signing tools, the answers of
-- internal/recovery, and the migration of an old deployment.json.
pub mod Prelude
pub mod Deployment
pub mod Otad
pub mod System
pub mod Trust
pub mod Boot
pub mod Signing
pub mod Agent
pub mod Diag
pub mod Audit
pub mod Atomd
mod Tests
