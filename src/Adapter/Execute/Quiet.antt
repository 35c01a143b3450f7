-- ===== src/Adapter/Execute/Quiet.antt =====
-- Steps of pkg/adapter that leave the store and the published events as they are, and what a chain
-- with such a step, a test or a save does.
use ev_abci.Prelude.{Error, Result, ap, err, ok, refl, ◌∙◌, ◌≡◌}
use ev_abci.Prelude.Act.{Act, continue, lift, ◌>>=◌, ◌>>◌}
use ev_abci.Store.{Datastore}
use ev_abci.Adapter.Types.{Node}
use ev_abci.Adapter.Execute.{after_save, on_app, save}

module _ {App : Type 0} where
  -- The store and the published events are as before.
  abbrev pub Same : Node App → Node App → Type 0
  Same before after = (after.ds ≡ before.ds) × (after.published ≡ before.published)

  -- A step that changes neither.
  abbrev pub IsQuiet : {A : Type 0} → Act (Node App) A → Type 0
  IsQuiet step = (node : Node App) → Same node (step node).1

  pub Same-trans : (x y z : Node App) → Same x y → Same y z → Same x z
  Same-trans x y z (a, b) (c, d) = (c ∙ a, d ∙ b)

  pub bind-IsQuiet :
      {A B : Type 0} (first : Act (Node App) A) (next : A → Act (Node App) B)
      → IsQuiet first
      → ((x : A) → IsQuiet (next x))
      → IsQuiet (first >>= next)
  bind-IsQuiet {A} {B} first next quiet later node = by_outcome (first node) (quiet node)
    where
      by_outcome : (out : Result A × Node App) → Same node out.1 → Same node (continue out next).1
      by_outcome (ok x, n) same_store =
          Same-trans node n (continue (ok x, n) next).1 same_store (later x n)
      by_outcome (err e, n) same_store = same_store

  -- The rest of a chain after a quiet step, by what the step returned.
  pub after_quiet :
      {A B : Type 0} (P : Result B × Node App → Type 0) (first : Act (Node App) A)
      (next : A → Act (Node App) B) (node : Node App)
      → IsQuiet first
      → ((e : Error) (n : Node App) → Same node n → P (err e, n))
      → ((x : A) (n : Node App) → first node ≡ (ok x, n) → Same node n → P (next x n))
      → P ((first >>= next) node)
  after_quiet {A} P first next node quiet failing going = by_outcome (first node) refl (quiet node)
    where
      by_outcome :
          (out : Result A × Node App) → first node ≡ out → Same node out.1 → P (continue out next)
      by_outcome (ok x, n) e same_store = going x n e same_store
      by_outcome (err e', n) e same_store = failing e' n same_store

  -- The rest of a chain after a test.
  pub after_lift :
      {A B : Type 0} (P : Result B × Node App → Type 0) (r : Result A) (next : A → Act (Node App) B)
      (node : Node App)
      → ((e : Error) → P (err e, node))
      → ((x : A) → r ≡ ok x → P (next x node))
      → P ((lift r >>= next) node)
  after_lift P (ok x) next node failing going = going x refl
  after_lift P (err e) next node failing going = failing e

  -- The rest of a chain after a save.
  pub after_write :
      {B : Type 0} (P : Result B × Node App → Type 0) (put_to : Datastore → Result Datastore)
      (rest : Act (Node App) B) (node : Node App)
      → ((e : Error) → P (err e, node))
      → ((d : Datastore) → put_to node.ds ≡ ok d → P (rest (record node { ds = d })))
      → P ((save put_to >> rest) node)
  after_write P put_to rest node failing going = by_result (put_to node.ds) refl
    where
      by_result :
          (r : Result Datastore) → put_to node.ds ≡ r → P (continue (after_save node r) (λ _. rest))
      by_result (ok d) e = going d e
      by_result (err e') e = failing e'

  -- A call of the application that succeeds.
  pub on_app_ok :
      {A : Type 0} (call : Act App A) (n : Node App) {x : A} {n' : Node App}
      → on_app call n ≡ (ok x, n')
      → call n.app ≡ (ok x, n'.app)
  on_app_ok call n h = ap (λ out. (out.0, out.1.app)) h
