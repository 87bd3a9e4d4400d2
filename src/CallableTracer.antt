-- ===== src/CallableTracer.antt =====
-- include/spinscale/callableTracer.h: a callable that is posted together with where it was posted,
-- which it can print before it runs.
--
-- The callable is a function on a state of its own; what is printed is recorded beside that state.
pub mod Transparent
mod Examples
use libspinscale.Base.{
  ℕ, ◌≡◌, Bool, true, false, ◌&&◌, Option, none, some, List, [], ◌∷◌, ◌++◌, if◌then◌else◌, ◌⊎◌, inl,
  inr,
}
use libspinscale.Outcome.{M, Outcome, ok, stop, ◌>>=◌, ◌>>◌, return, throw}
use libspinscale.ComponentThread.{tls_initialized, get_self}

-- Names and addresses are numbers.
pub record CallableTracer (S : Type 0) : Type 0 where
  pub caller_func_name : ℕ
  pub caller_line : ℕ
  pub return_addr0 : ℕ
  pub return_addr1 : ℕ
  pub callable : M S (Unit {0})

-- One message; `thread` is empty for a thread without TLS.
pub record Message : Type 0 where
  pub thread : Option ℕ
  pub func_name : ℕ
  pub line : ℕ
  pub addr0 : ℕ
  pub addr1 : ℕ

pub record Printing (S : Type 0) : Type 0 where
  pub printed : List Message
  pub state : S

module _ {S : Type 0} where
  -- The state of the callable stands inside the one with the messages.
  abbrev pub on_state : M S (Unit {0}) → M (Printing S) (Unit {0})
  on_state m p = elim (m p.state) [
    | ok x s ↦ ok x (record p { state = s })
    | stop e s ↦ stop e (record p { state = s })
  ]

  abbrev pub print : Message → M (Printing S) (Unit {0})
  print e p = ok tt (record p { printed = p.printed ++ e ∷ [] })

  -- The name that is printed for the thread `self`.
  unfoldable pub thread_name : Option ℕ → M (Printing S) (Option ℕ)
  unfolding tls_initialized
  thread_name self =
      if tls_initialized self then (do name ← get_self self; return (some name)) else return none

  -- `operator()`. `opts_built` says whether the build has CONFIG_DEBUG_TRACE_CALLABLES and OPTS_H, and
  -- `trace_callables` is the option of that name.
  unfoldable pub call : Bool → Bool → Option ℕ → CallableTracer S → M (Printing S) (Unit {0})
  unfolding thread_name
  call opts_built trace_callables self t = do
    if opts_built && trace_callables
        then (do
          name ← thread_name self
          print (record {
            thread = name;
            func_name = t.caller_func_name;
            line = t.caller_line;
            addr0 = t.return_addr0;
            addr1 = t.return_addr1;
          }))
        else return tt
    on_state t.callable

-- The macro STC: a build with tracing wraps a callable, and one without posts it as it is.
unfoldable pub stc :
    {S : Type 0} → Bool → ℕ → ℕ → ℕ → ℕ → M S (Unit {0}) → M S (Unit {0}) ⊎ CallableTracer S
stc traced f line a0 a1 m =
    if traced
    then inr (record {
      caller_func_name = f;
      caller_line = line;
      return_addr0 = a0;
      return_addr1 = a1;
      callable = m;
    })
    else inl m
