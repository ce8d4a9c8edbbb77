-- ===== src/Subscriptions.antt =====
-- acton-reactive/src/common/ipc/subscription_manager.rs: which IPC connections are subscribed to
-- which names, and who gets a notification. A connection's queue (tokio), its cancellation token
-- (tokio_util), the identity of an `Arc` and the security policy are taken from outside: a token
-- and an `Arc` are numbers that no other has, and the set of the tokens that are cancelled is part
-- of the state. What a policy and a queue answer are arguments. An operation runs under the lock
-- of the state, so it is one step.
pub mod Patterns
pub mod Connections
pub mod Changes
pub mod Queries
pub mod Delivery
pub mod Index
pub mod Choosing
pub mod Side
pub mod Routes
pub mod Invariant
pub mod Kept
pub mod Cache
pub mod Stamps
pub mod Sent
pub mod Steady
pub mod Clears
pub mod System
pub mod Forwarding
pub mod Selectors
pub mod Effects
pub mod Unsubscribing
pub mod Incarnations
pub mod Revocation
pub mod Sorting
pub mod Accepted
pub mod Batches
pub mod Withdrawals
use acton_reactive.Shared.{
  ℕ, zero, suc, ◌+◌, ◌%◌, ◌^◌, Bool, true, false, not, ◌&&◌, ◌||◌, Option, none, some, List, [],
  ◌∷◌, ltb, leb, ◌==◌, length, contains, is_some, if◌then◌else◌, Result, ok, err, ℕ_discrete, map,
}
use acton_reactive.Shared.Table.{get, put, remove}
use acton_reactive.Shared.Sets.{insert, insert_all, discard}
use acton_reactive.Subscriptions.Patterns.{
  Text, text_discrete, SubscriptionPattern, pattern_discrete, PatternSubscriptionError,
  too_many_patterns, unknown_connection, matches, validate_patterns, sorted_patterns,
}

abbrev pub ConnectionId : Type 0
ConnectionId = ℕ

-- Integers, for the `i32` that the platform reports.
pub data ℤ : Type 0 where
  pos : ℕ → ℤ
  negsuc : ℕ → ℤ

pub record PeerCredentials : Type 0 where
  pub pid : Option ℕ
  pub uid : ℕ
  pub gid : ℕ

-- `u32::try_from`.
abbrev pub to_u32 : ℤ → Option ℕ
to_u32 (ℤ.pos n) = some n
to_u32 (ℤ.negsuc n) = none

abbrev pub reported : Option ℤ → Option ℕ
reported none = none
reported (some pid) = to_u32 pid

unfoldable pub from_raw : Option ℤ → ℕ → ℕ → PeerCredentials
from_raw pid uid gid = record { pid = reported pid; uid = uid; gid = gid }

pub record SubscriptionStats : Type 0 where
  pub subscriptions_added : ℕ
  pub subscriptions_removed : ℕ
  pub push_notifications_sent : ℕ
  pub push_notifications_dropped : ℕ

-- `fetch_add` on an `AtomicUsize` wraps.
abbrev pub fetch_add : ℕ → ℕ → ℕ
fetch_add counter n = (counter + n) % 2 ^ 64

-- What is taken from outside: queues, the identities that an application admits, its policies, and
-- the identifiers of Rust types.
pub record Outside : Type 1 where
  pub PushSender : Type 0
  pub Identity : Type 0
  pub Policy : Type 0
  pub TypeId : Type 0
  pub type_id_discrete : Discrete TypeId

-- A set of keys of one connection, the index of who has which key, and a counter of changes.
pub record Work (K : Type 0) : Type 0 where
  pub chosen : List K
  pub index : List (K × List ConnectionId)
  pub changed : ℕ

abbrev pub or_empty : Option (List ConnectionId) → List ConnectionId
or_empty none = []
or_empty (some ids) = ids

abbrev pub is_nil {ℓ} : {A : Type ℓ} → List A → Bool
is_nil [] = true
is_nil (x ∷ xs) = false

module _ {K : Type 0} (d : Discrete K) where
  -- `entry(key).or_default().insert(id)`.
  unfoldable pub add_index :
      K → ConnectionId → List (K × List ConnectionId) → List (K × List ConnectionId)
  add_index key id index = put d key (insert ℕ_discrete id (or_empty (get d key index))) index

  unfoldable pub remove_index :
      K → ConnectionId → List (K × List ConnectionId) → List (K × List ConnectionId)
  remove_index key id index = elim (get d key index) [
    | none ↦ index
    | some ids ↦
        let rest = discard ℕ_discrete id ids in
        if is_nil rest then remove d key index else put d key rest index
  ]

  unfoldable pub remove_indices :
      List K → ConnectionId → List (K × List ConnectionId) → List (K × List ConnectionId)
  unfolding remove_index
  remove_indices [] id index = index
  remove_indices (key ∷ keys) id index = remove_indices keys id (remove_index key id index)

  unfoldable pub choose_one : ConnectionId → K → Work K → Work K
  unfolding add_index
  choose_one id key w = if contains d w.chosen key then w else record {
    chosen = insert d key w.chosen;
    index = add_index key id w.index;
    changed = fetch_add w.changed 1;
  }

  unfoldable pub choose_all : ConnectionId → List K → Work K → Work K
  unfolding choose_one
  choose_all id [] w = w
  choose_all id (key ∷ keys) w = choose_all id keys (choose_one id key w)

  unfoldable pub drop_one : ConnectionId → K → Work K → Work K
  unfolding remove_index
  drop_one id key w =
      if contains d w.chosen key
      then record {
        chosen = discard d key w.chosen;
        index = remove_index key id w.index;
        changed = fetch_add w.changed 1;
      }
      else w

  unfoldable pub drop_all : ConnectionId → List K → Work K → Work K
  unfolding drop_one
  drop_all id [] w = w
  drop_all id (key ∷ keys) w = drop_all id keys (drop_one id key w)

-- A shared list of recipients, with the identity of its `Arc`.
pub record Route : Type 0 where
  pub stamp : ℕ
  pub ids : List ConnectionId

abbrev pub any_matches : List SubscriptionPattern → Text → Bool
any_matches [] name = false
any_matches (p ∷ patterns) name = matches p name || any_matches patterns name

module _ (O : Outside) where
  open O use {PushSender, Identity, Policy, TypeId}

  pub record IpcConnectionContext : Type 0 where
    pub session : ℕ
    pub peer : Option PeerCredentials
    pub identity : Identity
    pub cancellation : ℕ

  abbrev pub same_session : IpcConnectionContext → IpcConnectionContext → Bool
  same_session a b = a.session == b.session

  pub record ConnectionInfo : Type 0 where
    pub incarnation : ℕ
    pub cancellation : ℕ
    pub security : Option (IpcConnectionContext × Policy)
    pub push_sender : PushSender
    pub subscribed_types : List Text
    pub subscribed_patterns : List SubscriptionPattern
    pub peer : Option PeerCredentials

  abbrev pub subscription_count : ConnectionInfo → ℕ
  subscription_count info = length info.subscribed_types + length info.subscribed_patterns

  abbrev pub info_matches : ConnectionInfo → Text → Bool
  info_matches info name =
      contains text_discrete info.subscribed_types name || any_matches info.subscribed_patterns name

  -- With the three tables of `SubscriptionState`; `next_id` is an identity that nothing has yet.
  pub record SubscriptionManager : Type 0 where
    pub connections : List (ConnectionId × ConnectionInfo)
    pub exact : List (Text × List ConnectionId)
    pub patterns : List (SubscriptionPattern × List ConnectionId)
    pub routes : List (Text × Route)
    pub type_id_to_name : List (TypeId × Text)
    pub stats : SubscriptionStats
    pub cancelled : List ℕ
    pub next_id : ℕ

  abbrev pub new_stats : SubscriptionStats
  new_stats = record {
    subscriptions_added = 0;
    subscriptions_removed = 0;
    push_notifications_sent = 0;
    push_notifications_dropped = 0;
  }

  abbrev pub new : SubscriptionManager
  new = record {
    connections = [];
    exact = [];
    patterns = [];
    routes = [];
    type_id_to_name = [];
    stats = new_stats;
    cancelled = [];
    next_id = 0;
  }

  abbrev pub connection : SubscriptionManager → ConnectionId → Option ConnectionInfo
  connection m id = get ℕ_discrete id m.connections
