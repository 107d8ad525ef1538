-- ===== src/Host/Options.antt =====
-- host/types.go: the options of one run. A logger is of the type that the process brings.
use go_zkvm.Base.{Bool, true, List, [], ◌∷◌, Option, none}
use go_zkvm.Host.Messages.{ReceiptKind, receipt_kind_composite}

-- `runConfig`
pub record RunConfig (Logger : Type 0) : Type 0 where
  pub logger : Option Logger
  pub receipt_self_verify : Bool
  pub receipt_kind : ReceiptKind

module _ {Logger : Type 0} where
  abbrev pub default_run_config : RunConfig Logger
  default_run_config = record {
    logger = none;
    receipt_self_verify = true;
    receipt_kind = receipt_kind_composite;
  }

  unfoldable pub with_logger : Option Logger → RunConfig Logger → RunConfig Logger
  with_logger logger cfg = record cfg { logger = logger }

  unfoldable pub with_receipt_self_verify : Bool → RunConfig Logger → RunConfig Logger
  with_receipt_self_verify enabled cfg = record cfg { receipt_self_verify = enabled }

  unfoldable pub with_receipt_kind : ReceiptKind → RunConfig Logger → RunConfig Logger
  with_receipt_kind kind cfg = record cfg { receipt_kind = kind }

  -- `for _, opt := range opts { opt(&cfg) }`
  abbrev pub apply_run_options :
      List (RunConfig Logger → RunConfig Logger) → RunConfig Logger → RunConfig Logger
  apply_run_options [] cfg = cfg
  apply_run_options (opt ∷ opts) cfg = apply_run_options opts (opt cfg)

  -- The configuration of a run.
  abbrev pub settings : List (RunConfig Logger → RunConfig Logger) → RunConfig Logger
  settings opts = apply_run_options opts default_run_config

-- `RunOption`
abbrev pub RunOption : Type 0 → Type 0
RunOption Logger = RunConfig Logger → RunConfig Logger
