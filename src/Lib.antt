-- ===== src/Lib.antt =====
-- A model of the logic of remote-devbox: the doctor that runs on the box (box/doctor/src), and the
-- client that drives it (clients/devbox/src).
--
-- The parts, and how they meet. On the box, the doctor reads facts about the components that it is
-- to watch, asks systemd and ss about them, and writes a health document; a profile reads it back
-- as a snapshot, and a recovery of one component collects documents before and after its actions.
-- On the client, `devbox recover` collects a document of the same form and acts on the components
-- that a registry lists. The client also checks and resolves a spec and assigns its ports, keeps a
-- record of the processes of its mounts, and switches the models of an agent session by presets.
--
-- Base holds the shared tests, list and text operations and their lemmas, Json the values of
-- JSON.parse. The models, with a file of the program each:
--   Doctor/Types       box/doctor/src/types.ts and the types of facts.ts
--   Doctor/Classify    box/doctor/src/classify.ts: classifySession, isWorktreeProtected
--   Doctor/Conditions  box/doctor/src/conditions.ts: detectConditions
--   Doctor/Report      box/doctor/src/report.ts: aggregateStatus, createHealthDocument; in
--                      Report/Evidence healthDocumentFromEvidence and formatHuman
--   Doctor/Parsing     what facts.ts and document.ts share: required and optional fields, choices
--   Doctor/Facts       box/doctor/src/facts.ts: parseListener, parseHealthFacts
--   Doctor/Document    box/doctor/src/document.ts: parseHealthDocument, readHealthSnapshot
--   Doctor/Collect     box/doctor/src/collect.ts: collectComponent, collectHostDocument; in
--                      Collect/Properties what it reads of systemctl and ss
--   Doctor/Recover     box/doctor/src/recover.ts: recoverBoxComponent
--   Doctor/Snapshot    box/doctor/src/snapshot.ts: writeHealthSnapshot
--   Doctor/Parsers     box/doctor/src/parse: mem.ts, swap.ts, rc.ts, sessions.ts, oom.ts,
--                      worktrees.ts
--   Doctor/Profile     box/doctor/src/profile.ts: collectProfileComponents, systemProfileProbe
--   Client/Recovery    clients/devbox/src/recovery.ts: decideRecovery; in Recovery/Registry the
--                      registry, in Recovery/Run runRecoverySelection
--   Client/Health      clients/devbox/src/health.ts: combineHealth
--   Client/Bridge      clients/devbox/src/bridge.ts: readBridges, assessBridgeProcesses,
--                      stopOwnedBridgeProcesses, reconcileBridges
--   Client/Presets     clients/devbox/src/omp-model-presets/core.ts: in Presets/Parsing
--                      parsePresetDocument, in Presets/Formatting what is printed, in
--                      Presets/State latestPresetState, in Presets/Controller the controller
--   Client/MountLock   clients/devbox/src/mount-lock.ts: acquireMountLock and its release
--   Client/ApplyLock   clients/devbox/src/apply-lock.ts: runWithApplyLocks; in ApplyLock/Inventory
--                      inventoryTargets
--   Spec/ClientPorts   clients/devbox/src/spec/client-ports.ts: assignClientPorts
--   Spec/Issues        clients/devbox/src/spec/issues.ts
--   Spec/McpPorts      clients/devbox/src/spec/browser-ports.ts, and mcpPortIssues of references.ts
--   Spec/Resolve       clients/devbox/src/spec/resolve.ts: chooseNamed, resolveMemorySpace; in
--                      Spec/Resolution resolveRemoteControl and resolveSpec
--   Spec/MemoryLimits  clients/devbox/src/spec/memory-limit.ts: canonicalMemorySize,
--                      isMemoryWeight, formatMemoryLimit
--   Spec/Phases        clients/devbox/src/spec/phases.ts: tagsFor
--   Spec/PortClaims    portIssues of clients/devbox/src/spec/references.ts
--   Spec/References    validateReferences of the same file; in Spec/Sections the records of a spec
--                      and the checks of one section
-- Examples holds runs on concrete inputs.
--
-- How state and effects appear. A call that can throw gives an Option or a Result. What runs on a
-- host is a function of an arbitrary host state that gives an answer and the next state: commands,
-- collections, actions and waits are such parameters. The world of a recovery also keeps the
-- systemctl actions that were sent, and the progress of a selection the components that were acted
-- upon, which the program does not keep. In a collection the answer of a command depends on its
-- arguments only, for the length of the collection. The runtime of the presets is a record of
-- calls, with its laws as a record where a theorem needs them. The processes at the mount lock move
-- one at a time in any order, which a list of moves gives. localeCompare, Date.parse and the text of
-- a number are parameters about which nothing is assumed. A regular expression is a test on the code
-- points of a text.
--
-- Bounds. The search for a free port runs on the number of the taken ports as fuel: above the
-- candidate there are at most as many taken ports, and with that fuel the search ends at a free
-- one. The loop of probes runs on the number of attempts that the source counts. decimal runs on
-- the number itself, and octal on the number and five, more than it has digits. A process at the
-- mount lock makes at most ten moves. Numbers are naturals where the source checks them to be so,
-- the process ids of a bridge are the integers of its file, and times are counted from the
-- earliest instant of a Date.
--
-- Not modelled: the roles, templates and scripts that are not TypeScript; what only starts other
-- programs or draws on a terminal; and of the client what reads and writes configuration, mounts,
-- syncs and agents, and what checks and normalizes a spec beyond its references.
pub mod Base
pub mod Json
pub mod Doctor
pub mod Spec
pub mod Client
pub mod Examples
