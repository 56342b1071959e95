-- ===== src/Examples.antt =====
-- Runs of the definitions on inputs that can be followed in the source, and the theorems that take
-- arguments applied at such inputs.
mod PermissionsExamples
mod DiffExamples
mod AuthExamples
mod ConditionExamples
mod PromoteExamples
mod PromotingExamples
mod ValidateExamples
mod RulesExamples
mod StorageExamples
mod OneLine
mod ServiceExamples
mod FlagsExamples
mod CreateExamples
mod ConfigExamples
