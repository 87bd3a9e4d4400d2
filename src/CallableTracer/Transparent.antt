-- ===== src/CallableTracer/Transparent.antt =====
-- A traced callable does what the callable does.
use libspinscale.Base.{
  ℕ, ◌≡◌, refl, subst, Bool, true, false, Option, none, some, List, [], ◌∷◌, ◌++◌,
}
use mathlib.Core.List.{append-nil}
use libspinscale.Outcome.{M, Outcome, ok, stop}
use libspinscale.ComponentThread.{tls_initialized}
use libspinscale.CallableTracer.{CallableTracer, Message, Printing, on_state, thread_name, call}

-- `r` is the outcome `q` of the callable, with messages behind those printed before.
abbrev pub IsLike :
    {S : Type 0} → List Message → Outcome S (Unit {0}) → Outcome (Printing S) (Unit {0}) → Type 0
IsLike before (ok x s) r =
    (ms : List Message) × (r ≡ ok x (record { printed = before ++ ms; state = s }))
IsLike before (stop e s) r =
    (ms : List Message) × (r ≡ stop e (record { printed = before ++ ms; state = s }))

module _ {S : Type 0} where
  on_state-IsLike :
      (m : M S (Unit {0})) (before ms : List Message) (s : S)
      → IsLike before (m s) (on_state m (record { printed = before ++ ms; state = s }))
  on_state-IsLike m before ms s =
      elim (m s)
        as (λ (q : Outcome S (Unit {0})). IsLike before q (elim q [
          | ok x s' ↦ ok x (record { printed = before ++ ms; state = s' })
          | stop e s' ↦ stop e (record { printed = before ++ ms; state = s' })
        ])) [ ok x s' ↦ (ms, refl) | stop e s' ↦ (ms, refl) ]

  on_state_silent-IsLike :
      (m : M S (Unit {0})) (p : Printing S) → IsLike p.printed (m p.state) (on_state m p)
  on_state_silent-IsLike m p =
      subst
        (λ (l : List Message).
          IsLike p.printed (m p.state) (on_state m (record { printed = l; state = p.state })))
        (append-nil p.printed) (on_state-IsLike m p.printed [] p.state)

  message : CallableTracer S → Option ℕ → Message
  message t thread = record {
    thread = thread;
    func_name = t.caller_func_name;
    line = t.caller_line;
    addr0 = t.return_addr0;
    addr1 = t.return_addr1;
  }

  -- A call of a traced callable, on a thread with or without TLS, ends as the callable does, in
  -- the same state, and only adds messages.
  pub call-IsLike :
      (opts_built trace_callables : Bool) (self : Option ℕ) (t : CallableTracer S) (p : Printing S)
      → IsLike p.printed (t.callable p.state) (call opts_built trace_callables self t p)
  unfolding call thread_name tls_initialized message
  call-IsLike false trace_callables self t p = on_state_silent-IsLike t.callable p
  call-IsLike true false self t p = on_state_silent-IsLike t.callable p
  call-IsLike true true none t p =
      on_state-IsLike t.callable p.printed (message t none ∷ []) p.state
  call-IsLike true true (some n) t p =
      on_state-IsLike t.callable p.printed (message t (some n) ∷ []) p.state
