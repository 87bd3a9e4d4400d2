-- ===== src/CallableTracer/Examples.antt =====
-- Tests of a traced callable that counts its calls.
use libspinscale.Base.{ℕ, suc, ◌≡◌, refl, true, false, none, [], ◌∷◌}
use libspinscale.Outcome.{ok}
use libspinscale.ComponentThread.{tls_initialized}
use libspinscale.CallableTracer.{CallableTracer, Printing, thread_name, call}

abbrev counting : CallableTracer ℕ
counting = record {
  caller_func_name = 1;
  caller_line = 42;
  return_addr0 = 0;
  return_addr1 = 0;
  callable = λ n. ok tt (suc n);
}

abbrev fresh : Printing ℕ
fresh = record { printed = []; state = 0 }

silent_call : call true false none counting fresh ≡ ok tt (record { printed = []; state = 1 })
unfolding call
silent_call = refl

-- A thread without TLS is named as such, and nothing is thrown.
traced_call_without_tls :
    call true true none counting fresh
    ≡ ok tt (record {
      printed = record { thread = none; func_name = 1; line = 42; addr0 = 0; addr1 = 0 } ∷ [];
      state = 1;
    })
unfolding call thread_name tls_initialized
traced_call_without_tls = refl
