-- ===== src/Network/Run.antt =====
-- Runs of the network module: its messages and block ends in any order
-- (modules/network/keeper/msg_server.go and abci.go).
use mathlib.Core.Path.{subst}
use ev_abci.Prelude.{Bool, List, arith, inl, inr, ok, refl, sym, ◌∙◌, ◌≡◌, ◌≤ℤ◌}
use ev_abci.Network.Types.{Ctx, Env, MsgAttest, MsgUpdateParams, State}
use ev_abci.Network.MsgServer.{attest, join_attester_set, leave_attester_set, update_params}
use ev_abci.Network.MsgServer.Effects.{attest-cases}
use ev_abci.Network.MsgServer.Progress.{attest-IsValid, attest-Moves, height_of, last}
use ev_abci.Network.MsgServer.Govern.{update_params-IsValid, update_params-cases}
use ev_abci.Network.EndBlocker.{end_blocker}
use ev_abci.Network.EndBlocker.Total.{end_blocker-IsValid, end_blocker_lem, ended-Shrinks}
use ev_abci.Network.Invariant.{IsValid}
use ev_abci.Network.Invariant.Shrinks.{Shrinks}

-- One call of the module, whatever it returns. The staking module lists its last validators at the
-- end of each block.
pub data Step (env : Env) : State → State → Type 0 where
  by_attest : (ctx : Ctx) (msg : MsgAttest) (s : State) → Step env s (attest env ctx msg s).1
  by_join : (s : State) → Step env s (join_attester_set s).1
  by_leave : (s : State) → Step env s (leave_attester_set s).1
  by_update_params : (msg : MsgUpdateParams) (s : State) → Step env s (update_params env msg s).1
  by_block_end :
      (ctx : Ctx) (bonded : List Bool) (s : State)
      → env.last_validators_bonded ≡ ok bonded
      → Step env s (end_blocker env ctx s).1

pub data Run (env : Env) : State → State → Type 0 where
  stop : (s : State) → Run env s s
  next : {s t u : State} → Step env s t → Run env t u → Run env s u

Step-IsValid : (env : Env) {s t : State} → Step env s t → IsValid env s → IsValid env t
unfolding join_attester_set leave_attester_set
Step-IsValid env (by_attest ctx msg s) valid = attest-IsValid env ctx msg s valid
Step-IsValid env (by_join s) valid = valid
Step-IsValid env (by_leave s) valid = valid
Step-IsValid env (by_update_params msg s) valid = update_params-IsValid env msg s valid
Step-IsValid env (by_block_end ctx bonded s h) valid = end_blocker-IsValid env ctx s bonded valid h

-- Every store that a run reaches from a well-formed one is well-formed.
pub Run-IsValid : (env : Env) {s t : State} → Run env s t → IsValid env s → IsValid env t
Run-IsValid env (stop s) valid = valid
Run-IsValid env (next step run) valid = Run-IsValid env run (Step-IsValid env step valid)

-- What no message and no block end takes back.
abbrev pub Extends : State → State → Type 0
Extends s t =
    (t.attester_set ≡ s.attester_set)
    × (t.attester_info ≡ s.attester_info)
    × (t.validator_index ≡ s.validator_index)
    × (t.validator_power ≡ s.validator_power)
    × (last s ≤ℤ last t)

refl-Extends : (s : State) → Extends s s
refl-Extends s = (refl, refl, refl, refl, omega arith)

Shrinks-Extends : {s t : State} → Shrinks s t → Extends s t
Shrinks-Extends {s} {t} sh = (
  sh.attester_set,
  sh.attester_info,
  sh.validator_index,
  sh.validator_power,
  subst (λ g. last s ≤ℤ height_of g) (sym sh.last_attested_height) (omega arith),
)

attest-Extends :
    (env : Env) (ctx : Ctx) (msg : MsgAttest) (s : State)
    → IsValid env s
    → Extends s (attest env ctx msg s).1
attest-Extends env ctx msg s valid = elim (attest-cases env ctx msg s valid) [
  | inl (e, refused) ↦ rw refused (refl-Extends s)
  | inr (index, bitmap, a, done) ↦
      rw done (refl, refl, refl, refl, (attest-Moves env ctx msg s valid done).0)
]

Step-Extends : (env : Env) {s t : State} → Step env s t → IsValid env s → Extends s t
unfolding join_attester_set leave_attester_set
Step-Extends env (by_attest ctx msg s) valid = attest-Extends env ctx msg s valid
Step-Extends env (by_join s) valid = refl-Extends s
Step-Extends env (by_leave s) valid = refl-Extends s
Step-Extends env (by_update_params msg s) valid = elim (update_params-cases env msg s) [
  | inl (_, done) ↦ rw done (refl, refl, refl, refl, omega arith)
  | inr (_, (e, refused)) ↦ rw refused (refl-Extends s)
]
Step-Extends env (by_block_end ctx bonded s h) valid =
    rw (end_blocker_lem env ctx s valid bonded h)
      (Shrinks-Extends (ended-Shrinks env ctx valid.current s))

-- Along a run from a well-formed store the attester set, the attesters' keys, indices and powers
-- never change, and the last attested height never goes back.
pub Run-Extends : (env : Env) {s t : State} → Run env s t → IsValid env s → Extends s t
Run-Extends env (stop s) valid = refl-Extends s
Run-Extends env (next {s} {t} {u} step run) valid =
    let (a, b, c, d, e) = Step-Extends env step valid in
    let (a', b', c', d', e') = Run-Extends env run (Step-IsValid env step valid) in
    (a' ∙ a, b' ∙ b, c' ∙ c, d' ∙ d, omega arith)
