-- ===== src/Lib.antt =====
-- Rintel's core: evidence about a code base, and what may become a canonical fact.
--
-- Providers (compilers, parsers, runtime traces, reference tools, people) hand over evidence
-- envelopes. The authority registry says for each lane what it may claim; the engine admits an
-- envelope into the canonical plane, or raises; admitted claims are reconciled into canonical facts
-- and conflicts; a sealed batch of them is published as an immutable revision. Apart from that the
-- core masks comments and literals of C and Fortran sources, in which all positions stay valid, and
-- takes a change of the design from its plan to its close, by gates that ask for such evidence.
--
-- The parts, with the files of the repository that they model:
--
-- SourceSpan/Mask - src/rintel/source_span/mask.py. `C.mask_c` and `Fortran.mask_fortran` are the
-- functions of those names on lists of code points. `Loop.run` is the loop over the position, a
-- structural recursion on what is left of the text, so that it needs no fuel; `C.pass` and
-- `Fortran.pass` are its bodies. The flags of the source exclude each other and are one mode.
--
-- Evidence/Contract, Evidence/Candidate - src/rintel/analysis/contract.py and
-- src/rintel/provider_arch/contract.py: the four dimensions of a claim, the evidence candidate with
-- the checks of its constructor, and a provider's result with the tests for publication.
--
-- Evidence/Registry, Evidence/DefaultRegistry, Evidence/Envelope, Evidence/Wire - the files
-- registry.py and model.py of src/rintel/evidence_authority: lanes and their lookup, the default
-- registry with its eight lanes, envelopes with the checks of their constructors, and the wire form
-- of an envelope, of which its digest is taken.
--
-- Evidence/Admission, Evidence/Alignment - src/rintel/evidence_authority/engine.py: `lane_of`
-- (`_lane`), `validate_claim`, `admit` and `align`, with the loop over the groups as `align_groups`.
-- The engine is a record of the registry and the version of the rules; a receipt is the record
-- `CanonicalAdmission`. Envelopes are grouped by their anchor in the order of their first arrival,
-- as a dictionary keeps them.
--
-- Evidence/Support - `issue_fact_support` of src/rintel/evidence_authority/engine.py, with the receipt
-- of support.py beside it.
--
-- Evidence/Query, Evidence/Bridge - src/rintel/evidence_authority/query.py and bridge.py: an answer to
-- a query and what it may be called, and the receipts for relations between two languages.
--
-- Evidence/Canonical - src/rintel/provider_arch/canonical.py: `fate` is the `try` of the loop of
-- `_reconcile_raw_candidates` and what stands behind it, `resolve_all` that loop, `decide_all` the
-- loop over the slots.
--
-- Evidence/Batch, Evidence/Publication - src/rintel/provider_arch/_publication_batch.py and
-- src/rintel/provider_arch/publication.py. The store's directories and its pointer are a record, the
-- stage at which the file system raises is an argument, and so is what reads the staged bundle back;
-- `publish` returns its reply and the store behind it.
--
-- Protocol - src/rintel/provider_protocol/validation.py and staging.py: the tests on a message of an
-- untrusted provider process, and the staging area into which its fact batches go.
--
-- Jobs - src/rintel/server/jobs.py: the registry of background jobs, with the persister's calls as
-- a log and the time as an argument of each operation. The lock makes each call one step.
--
-- Lifecycle - the files models.py, service.py, repository.py and design_drc.py of
-- src/rintel/design_lifecycle. `Models` has the change and the commands, a dictionary being a record
-- and a key that may be missing an option. `Context` is what the service asks at the time of a
-- command: the published graph, the index jobs, the checker of layouts, the receipts. `Values` has the
-- conversions `list`, `dict` and `set` of values that a caller gives, which may raise. `DesignDrc` is
-- the rule on a plan with `visit`, which runs on fuel: two more than the number of planned relations,
-- which is enough for every plan; where the interpreter's own limit on nested calls is met, which
-- depends on the order of its hashes, is a parameter, and a rule that raises is a finding, as
-- src/rintel/drc/engine.py makes it. `Comparison` is `_evaluate`, `Gates` are `preflight` and
-- `evaluate_command` by the reasons they give, `Commands` (with `Adoption`) the branches of
-- `apply_command`, `Receipts` the approvals and test runs. `Repository` has the tables and the two
-- writes, `open_change` and `run_command`, the whole of `apply_command`; `Repository/History` is the
-- step relation of calls that return, and `Repository/Interleaving` that of callers that read, compute
-- and write at different times.
--
-- SourceSpan/Text - src/rintel/source_span/text.py: the table of line starts, positions, slices, and
-- the scans of the masked text for a matching parenthesis, an identifier and the start of a statement.
--
-- Prelude holds what these share: Boolean tests with their equivalences, lists and texts, results,
-- JSON values, dictionaries that keep the order of insertion, grouping and sorting by a text.
--
-- Parameters of the model are what is not in the repository: `json.dumps`, SHA-256, the text of a
-- float and `str` (the record `Codec`), the resolver of identities, the file system's failures.
-- No property assumes anything about the codec or the resolver. The round trip of the staging area
-- assumes of the facts staged that each is written as one line, which reads back.
--
-- In a design change the checker of layouts is a parameter, which may raise: the service is given one,
-- or takes its `_default_lvs`, whose flow analysis is not modelled. Two further parameters stand for
-- code of the repository that is not modelled: the mutations of the architecture and of flows, and
-- whether a certificate of coverage applies to a relation. No property assumes anything about them.
--
-- Error texts and the message of an alignment are left out. Not modelled: files and sockets as such,
-- databases, the servers, the interfaces to compilers, and the subsystems of the repository that are
-- not named above.
mod Prelude
pub mod SourceSpan
pub mod Evidence
pub mod Protocol
pub mod Jobs
pub mod Lifecycle
mod Examples
