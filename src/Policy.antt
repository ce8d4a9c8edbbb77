-- ===== src/Policy.antt =====
-- acton-reactive/src/actor/restart_policy.rs and acton-reactive/src/actor/supervision/strategy.rs:
-- when a child may be restarted, and what its supervisor does then. A text is the list of its
-- bytes.
use acton_reactive.Shared.{ℕ, Bool, true, false, not, List, if◌then◌else◌}

pub data RestartPolicy : Type 0 where
  permanent temporary transient : RestartPolicy

pub data TerminationReason : Type 0 where
  normal : TerminationReason
  panic : List ℕ → TerminationReason
  inbox_closed parent_shutdown : TerminationReason

abbrev is_parent_shutdown : TerminationReason → Bool
is_parent_shutdown parent_shutdown = true
is_parent_shutdown _ = false

abbrev is_normal : TerminationReason → Bool
is_normal normal = true
is_normal _ = false

abbrev policy_allows : RestartPolicy → TerminationReason → Bool
policy_allows permanent reason = true
policy_allows temporary reason = false
policy_allows transient reason = not (is_normal reason)

unfoldable pub should_restart : RestartPolicy → TerminationReason → Bool
should_restart policy reason =
    if is_parent_shutdown reason then false else policy_allows policy reason

pub data SupervisionStrategy : Type 0 where
  one_for_one one_for_all rest_for_one : SupervisionStrategy

pub data SupervisionDecision : Type 0 where
  restart_child restart_all : SupervisionDecision
  restart_from : ℕ → SupervisionDecision
  no_restart escalate : SupervisionDecision

abbrev pub apply_strategy : SupervisionStrategy → ℕ → SupervisionDecision
apply_strategy one_for_one child_index = restart_child
apply_strategy one_for_all child_index = restart_all
apply_strategy rest_for_one child_index = restart_from child_index

unfoldable pub decide_strategy :
    SupervisionStrategy → RestartPolicy → TerminationReason → ℕ → SupervisionDecision
decide_strategy strategy policy reason child_index =
    if not (should_restart policy reason) then no_restart else apply_strategy strategy child_index

unfoldable pub requires_group_restart : SupervisionStrategy → Bool
requires_group_restart one_for_one = false
requires_group_restart one_for_all = true
requires_group_restart rest_for_one = true
