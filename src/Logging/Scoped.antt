-- ===== src/Logging/Scoped.antt =====
-- internal/logging/scoped.go. The ledger is shared, so a method takes it and returns the new one.
use lp.Base.{ℕ, String}
use lp.Logging.{Ledger, Fields}
use lp.Logging

-- Scoped, without the pointer to the ledger
pub record Scoped : Type 0 where
  pub category : String
  pub source : String

-- NewScoped
unfoldable pub new_scoped : String → String → Scoped
new_scoped category source = record { category = category; source = source }

-- Scoped.Info
unfoldable pub scoped_info : ℕ → Scoped → String → Fields → Ledger → Ledger
scoped_info now s message fields = Logging.info now s.category s.source message fields

-- Scoped.Error
unfoldable pub scoped_error : ℕ → Scoped → String → Fields → Ledger → Ledger
scoped_error now s message fields = Logging.error now s.category s.source message fields

-- Scoped.Warn
unfoldable pub scoped_warn : ℕ → Scoped → String → Fields → Ledger → Ledger
scoped_warn now s message fields = Logging.warn now s.category s.source message fields

-- Scoped.Debug
unfoldable pub scoped_debug : ℕ → Scoped → String → Fields → Ledger → Ledger
scoped_debug now s message fields = Logging.debug now s.category s.source message fields
