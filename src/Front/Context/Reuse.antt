-- ===== src/Front/Context/Reuse.antt =====
-- Process contexts (include/sbox/process.hh) that are used again, or inside one another.
use sbox.Prelude.{[], ◌∷◌, ◌≡◌, refl, ap, ◌++◌, Bool, true, false, if◌then◌else◌}
use sbox.Copy.{Memory}
use sbox.Front.Context.{CopyBack, Context, push_copyback, run_copybacks, finalize, context_call}

finalize_flag : (ctx : Context) → (finalize ctx).finalized ≡ true
unfolding finalize
finalize_flag ctx = flagged ctx.finalized refl
  where
    flagged :
        (b : Bool)
        → ctx.finalized ≡ b
        → (if b then ctx else record ctx {
          finalized = true;
          mem = run_copybacks ctx.copybacks ctx.mem;
        }).finalized
          ≡ true
    flagged true e = e
    flagged false e = refl

finalize_done : (ctx : Context) → ctx.finalized ≡ true → finalize ctx ≡ ctx
unfolding finalize
finalize_done ctx e = done ctx.finalized e
  where
    done :
        (b : Bool)
        → b ≡ true
        → (if b
            then ctx
            else record ctx { finalized = true; mem = run_copybacks ctx.copybacks ctx.mem })
          ≡ ctx
    done true e = refl
    done false e = cc

-- The copy-backs run once: a second `finalize`, such as the destructor's after a call, changes
-- nothing.
pub finalize-finalize : (ctx : Context) → finalize (finalize ctx) ≡ finalize ctx
finalize-finalize ctx = finalize_done (finalize ctx) (finalize_flag ctx)

-- Copy-backs that are registered with a context after its first call do not run after its second:
-- the memory is left as the second call left it.
pub context_call-again :
    (run1 run2 : Memory → Memory) (ctx : Context) (cb : CopyBack)
    → (context_call run2 (push_copyback (context_call run1 ctx) cb)).mem
      ≡ run2 (context_call run1 ctx).mem
unfolding context_call push_copyback
context_call-again run1 run2 ctx cb =
    ap (λ (c : Context). c.mem)
      (finalize_done
        (record (finalize (record ctx { mem = run1 ctx.mem })) {
          copybacks = (finalize (record ctx { mem = run1 ctx.mem })).copybacks ++ (cb ∷ []);
          mem = run2 (finalize (record ctx { mem = run1 ctx.mem })).mem;
        })
        (finalize_flag (record ctx { mem = run1 ctx.mem })))
