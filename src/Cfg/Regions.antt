-- ===== src/Cfg/Regions.antt =====
-- The exception metadata that a control-flow graph carries, crates/cfglib/src/region.rs. An identity
-- is a number, and an ordered set of blocks is the list of its members.
use cfglib.Prelude.{ℕ, List, Option}

pub data HandlerBody : Type 0 where
  unknown : HandlerBody
  known : List ℕ → HandlerBody

pub data HandlerKind : Type 0 where
  catch catch_all finally fault : HandlerKind
  filter : ℕ → HandlerKind

pub record Handler : Type 0 where
  pub entry : ℕ
  pub body : HandlerBody
  pub kind : HandlerKind

pub record Region : Type 0 where
  pub id : ℕ
  pub protected_blocks : List ℕ
  pub handlers : List Handler
  pub parent : Option ℕ

pub record HandlerRef : Type 0 where
  pub region : ℕ
  pub handler : ℕ

pub data CompletionReason : Type 0 where
  normal transfer return unwind : CompletionReason

pub record Continuation : Type 0 where
  pub reason : CompletionReason
  pub resume : ℕ

pub record Cleanup : Type 0 where
  pub handler : HandlerRef
  pub resume_from : Option ℕ
  pub continuations : List Continuation
