-- ===== src/Authorization/Facade/Chosen.antt =====
-- The facade lets in by the first flow that handles the request and lets in.
use bifroest.Prelude.{
  ◌≡◌, ◌↔◌, refl, ap, ◌∙◌, true, false, List, [], ◌∷◌, ◌++◌, ok, arith, Bool-cases, inl, inr,
}
use bifroest.Prelude.Actions.{run-cases}
use bifroest.Session.Store.{Store}
use bifroest.Authorization.Request.{
  Granted, Authorization, forbidden, granted, is_authorized, Action, Request,
}
use bifroest.Authorization.Facade.{Facaded, can_handle, ask_each}

module _ (ask : Facaded → Action Authorization) (req : Request) where
  -- Flows that do not handle the request, or that say that it is forbidden, one after the other.
  pub data Refused : List Facaded → Store → Store → Type 0 where
    nobody : (r : Store) → Refused [] r r
    not_handled :
        (f : Facaded) (fs : List Facaded) (r r' : Store)
        → can_handle f req ≡ false
        → Refused fs r r'
        → Refused (f ∷ fs) r r'
    refused :
        (f : Facaded) (fs : List Facaded) (r r1 r' : Store) (resp : Authorization)
        → can_handle f req ≡ true
        → ask f r ≡ (r1, ok resp)
        → is_authorized resp ≡ false
        → Refused fs r1 r'
        → Refused (f ∷ fs) r r'

  -- One flow lets in, behind some that do not.
  pub record IsChosen (entries : List Facaded) (r r' : Store) (g : Granted) : Type 0 where
    pub before : List Facaded
    pub chosen : Facaded
    pub behind : List Facaded
    pub split_at : entries ≡ before ++ chosen ∷ behind
    pub middle : Store
    pub refused_before : Refused before r middle
    pub handled : can_handle chosen req ≡ true
    pub lets_in : ask chosen middle ≡ (r', ok (granted g))

  ask_each-Refused :
      (before others : List Facaded) (r r1 : Store)
      → Refused before r r1
      → ask_each ask req (before ++ others) r ≡ ask_each ask req others r1
  unfolding ask_each
  ask_each-Refused _ others _ _ (nobody r) = refl
  ask_each-Refused _ others _ _ (not_handled f fs r r' skips more) =
      ground (arith, skips, ask_each-Refused fs others r r' more)
  ask_each-Refused _ others _ _ (refused f fs r r1 r' resp handled asked denied more) =
      ground (arith, handled, asked, denied, ask_each-Refused fs others r1 r' more)

  IsChosen-let_in :
      (entries : List Facaded) (r r' : Store) (g : Granted)
      → IsChosen entries r r' g
      → ask_each ask req entries r ≡ (r', ok (granted g))
  unfolding ask_each is_authorized
  IsChosen-let_in entries r r' g k =
      ap (λ es. ask_each ask req es r) k.split_at
      ∙ ask_each-Refused k.before (k.chosen ∷ k.behind) r k.middle k.refused_before
      ∙ ground (arith, k.handled, k.lets_in)

  let_in-IsChosen :
      (entries : List Facaded) (r r' : Store) (g : Granted)
      → ask_each ask req entries r ≡ (r', ok (granted g))
      → IsChosen entries r r' g
  unfolding ask_each is_authorized
  let_in-IsChosen [] r r' g h = absurd (ground arith)
  let_in-IsChosen (f ∷ fs) r r' g h = elim (Bool-cases (can_handle f req)) [
    | inr skips ↦
        let k = let_in-IsChosen fs r r' g (ground (arith, skips)) in
        record {
          before = f ∷ k.before;
          chosen = k.chosen;
          behind = k.behind;
          split_at = ap (λ es. f ∷ es) k.split_at;
          middle = k.middle;
          refused_before = not_handled f k.before r k.middle skips k.refused_before;
          handled = k.handled;
          lets_in = k.lets_in;
        }
    | inl handles ↦ elim (run-cases (ask f) r) [
      | inl (r1, e, fails) ↦ absurd (ground (arith, handles, fails))
      | inr (r1, forbidden remote, asked) ↦
          let k = let_in-IsChosen fs r1 r' g (ground (arith, handles, asked)) in
          record {
            before = f ∷ k.before;
            chosen = k.chosen;
            behind = k.behind;
            split_at = ap (λ es. f ∷ es) k.split_at;
            middle = k.middle;
            refused_before =
                refused f k.before r r1 k.middle (forbidden remote) handles asked refl
                  k.refused_before;
            handled = k.handled;
            lets_in = k.lets_in;
          }
      | inr (r1, granted g1, asked) ↦ record {
        before = [];
        chosen = f;
        behind = fs;
        split_at = refl;
        middle = r;
        refused_before = nobody r;
        handled = handles;
        lets_in = asked ∙ ground (arith, handles, asked);
      }
    ]
  ]

  -- Of several flows, asked in any of the three ways, somebody is let in exactly where one of them
  -- handles the request and lets in, and all before it do not handle it or answer that it is
  -- forbidden, each on the sessions that the one before leaves; the answer is that of the flow.
  pub ask_each_iff :
      (entries : List Facaded) (r r' : Store) (g : Granted)
      → (ask_each ask req entries r ≡ (r', ok (granted g))) ↔ IsChosen entries r r' g
  ask_each_iff entries r r' g = (let_in-IsChosen entries r r' g, IsChosen-let_in entries r r' g)
