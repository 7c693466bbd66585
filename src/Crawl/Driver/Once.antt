-- ===== src/Crawl/Driver/Once.antt =====
-- Which nodes the driver handles in a run, with workers in between.
use dext.Base.{ℕ, ◌≡◌, sym, ap, ◌∙◌, subst, String, true, false, List, [], ◌∷◌, elem}
use dext.Crawl.Types.{ClaimedNode}
use dext.Crawl.Store.Laws.{Distinct}
use dext.Crawl.Driver.{Outside, Engine, handled, sleeps, driver_pass}
use dext.Crawl.Driver.Loop.{Passes, driver_pass-Passes, elem_of}

module _ (out : Outside) where
  -- The engines that passes of the driver, and workers between them, lead to, with the keys of the
  -- nodes that were handled. A worker may change everything but the attempted keys.
  pub data Runs (e : Engine) : List String → Engine → Type 0 where
    starts : Runs e [] e
    handles :
        {keys : List String} {e1 e2 : Engine} {node : ClaimedNode} (now : ℕ)
        → Runs e keys e1
        → driver_pass out now e1 ≡ handled node e2
        → Runs e (node.node_key ∷ keys) e2
    rests :
        {keys : List String} {e1 e2 : Engine} (now : ℕ)
        → Runs e keys e1
        → driver_pass out now e1 ≡ sleeps e2
        → Runs e keys e2
    works :
        {keys : List String} {e1 e2 : Engine}
        → Runs e keys e1
        → e2.attempted ≡ e1.attempted
        → Runs e keys e2

  -- In a run that starts with no attempted key, the handled nodes have different keys, whatever the
  -- workers do to the tables between the passes, and the attempted keys are the handled ones.
  pub node_handled_once :
      (e : Engine)
      → e.attempted ≡ []
      → {keys : List String} {e' : Engine} → Runs e keys e'
      → Distinct keys × (e'.attempted ≡ keys)
  node_handled_once e empty starts = (tt, empty)
  node_handled_once e empty (handles {keys} {e1} {e2} {node} now before passed) =
      let (distinct, tried) = node_handled_once e empty before in
      let (free, there, now_tried, kept, covered) =
        subst (Passes e1 now) passed (driver_pass-Passes out now e1) in
      let unseen : elem node.node_key keys ≡ false = ap (elem node.node_key) (sym tried) ∙ free in
      (
        (
          λ h. let bad : true ≡ false = sym (elem_of node.node_key keys h) ∙ unseen in cc bad,
          distinct,
        ),
        now_tried ∙ ap (λ ks. node.node_key ∷ ks) tried,
      )
  node_handled_once e empty (rests {keys} {e1} now before passed) =
      let (distinct, tried) = node_handled_once e empty before in
      let (busy, same, covered, none_due) =
        subst (Passes e1 now) passed (driver_pass-Passes out now e1) in
      (distinct, same ∙ tried)
  node_handled_once e empty (works before same) =
      let (distinct, tried) = node_handled_once e empty before in (distinct, same ∙ tried)
