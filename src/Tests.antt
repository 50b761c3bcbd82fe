-- ===== src/Tests.antt =====
-- Runs of the model on small inputs, and the theorems at inputs that meet their hypotheses.
mod Data
mod SpoolRuns
mod LogRuns
mod IndexRuns
mod WalkRuns
mod ScanRuns
mod RefRuns
mod OptionRuns
mod FeederRuns
mod CatRuns
mod CatFeedRuns
mod WholeRuns
mod CollectRuns
mod CommandRuns
mod TableRuns
mod HistoryRuns
