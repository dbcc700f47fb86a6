-- ===== src/Models/GateTwap.antt =====
-- backend/app/models/gate_twap.py: the requests, plans and jobs of a sale in slices. `W` is the type of a
-- `float`.
use taoli.Base.{ℕ, String, Bool, Option, List}
use taoli.Models.Identity.{Time}

pub data Side : Type 0 where
  sell buy : Side

pub data SliceMode : Type 0 where
  initial remaining : SliceMode

pub data ActionMode : Type 0 where
  ack result full : ActionMode

pub record GateTwapRequest (W : Type 0) : Type 0 where
  pub contract : String
  pub settle : String
  pub side : Side
  pub start_at : Option Time
  pub interval_seconds : W
  pub duration_seconds : W
  pub percent : W
  pub slice_mode : SliceMode
  pub initial_size : Option W
  pub last_order_all : Bool
  pub slip_ratio : Option W
  pub client_prefix : String
  pub action_mode : ActionMode

pub record GateTwapContractRules (W : Type 0) : Type 0 where
  pub order_size_min : W
  pub order_size_step : W
  pub enable_decimal : Bool
  pub market_order_slip_ratio : Option W
  pub market_order_size_max : Option W
  pub status : Option String

pub record GateTwapPlanSlice (W : Type 0) : Type 0 where
  pub index : ℕ
  pub scheduled_at : Time
  pub raw_size : W
  pub order_size : W
  pub signed_order_size : W
  pub remaining_after : W
  pub skipped_reason : Option String

pub record GateTwapPlan (W : Type 0) : Type 0 where
  pub request : GateTwapRequest W
  pub contract : String
  pub settle : String
  pub side : Side
  pub order_count : ℕ
  pub initial_size : Option W
  pub signed_position_size : Option W
  pub has_credentials : Bool
  pub rules : GateTwapContractRules W
  pub total_planned_size : W
  pub slices : List (GateTwapPlanSlice W)
  pub warnings : List String

pub record GateTwapRunRequest (W : Type 0) : Type 0 where
  pub request : GateTwapRequest W
  pub live : Bool
  pub confirm_live : Bool

pub data JobState : Type 0 where
  queued running completed failed cancelled : JobState

pub data Level : Type 0 where
  info warning error : Level

-- The order of a slice; it reduces a position at once or not at all.
pub record Order : Type 0 where
  pub contract : String
  pub size : String
  pub price : String
  pub tif : String
  pub reduce_only : Bool
  pub text : String
  pub action_mode : ActionMode
  pub market_order_slip_ratio : Option String

pub record GateTwapJobEvent : Type 0 where
  pub at : Time
  pub level : Level
  pub message : String
  pub order : Option Order
  pub response : Option String

-- `start` always sets the plan.
pub record GateTwapJobStatus (W : Type 0) : Type 0 where
  pub job_id : String
  pub state : JobState
  pub live : Bool
  pub request : GateTwapRequest W
  pub plan : GateTwapPlan W
  pub created_at : Time
  pub started_at : Option Time
  pub finished_at : Option Time
  pub completed_orders : ℕ
  pub skipped_orders : ℕ
  pub total_order_size : W
  pub last_error : Option String
  pub events : List GateTwapJobEvent
