-- ===== src/User/Colon/Lines.antt =====
-- Cutting a file into lines, and a line into columns.
use bifroest.Prelude.{
  ℕ, ◌≡◌, ◌≢◌, ◌≤◌, refl, ap, ◌∙◌, inl, inr, List, [], ◌∷◌, ◌++◌, map, Bytes, length, is_empty, All,
  All-map, All-append, Lacks, arith, ◌==◌, Bool-cases,
}
use bifroest.User.Columns.{split_n, split, join}
use bifroest.User.Columns.Parts.{split-append, split_n-All-Lacks, All-split_n, All-cons_first}
use bifroest.User.Value.{IsPlain}
use bifroest.User.Colon.{scan_lines, drop_return, drop_last_empty}

-- A byte of a line: neither a newline nor a return.
pub record InLine (c : ℕ) : Type 0 where
  pub no_newline : c ≢ b'\n'
  pub no_return : c ≢ b'\r'

-- Every line, each with its newline.
unfoldable pub unlines : List Bytes → Bytes
unlines [] = []
unlines (l ∷ ls) = l ++ b'\n' ∷ unlines ls

pub drop_return-InLine : (l : Bytes) → All InLine l → drop_return l ≡ l
unfolding drop_return
drop_return-InLine [] h = refl
drop_return-InLine (c ∷ []) (hc, _) = ground (arith, hc.no_return)
drop_return-InLine (c ∷ d ∷ l) (hc, h) = ap (λ (r : Bytes). c ∷ r) (drop_return-InLine (d ∷ l) h)

pub split-unlines :
    (ls : List Bytes) → All (All InLine) ls → split b'\n' (unlines ls) ≡ ls ++ [] ∷ []
unfolding unlines
split-unlines [] h = unfold split in refl
split-unlines (l ∷ ls) (hl, h) =
    split-append b'\n' l (unlines ls) (All-map InLine (λ c. c ≢ b'\n') (λ c k. k.no_newline) l hl)
    ∙ ap (λ (r : List Bytes). l ∷ r) (split-unlines ls h)

pub drop-empty : (ls : List Bytes) → drop_last_empty (ls ++ [] ∷ []) ≡ ls
unfolding drop_last_empty
drop-empty [] = refl
drop-empty (l ∷ []) = refl
drop-empty (l ∷ m ∷ ls) = ap (λ (r : List Bytes). l ∷ r) (drop-empty (m ∷ ls))

map-drop_return : (ls : List Bytes) → All (All InLine) ls → map drop_return ls ≡ ls
map-drop_return [] h = refl
map-drop_return (l ∷ ls) (hl, h) = cc (drop_return-InLine l hl, map-drop_return ls h)

-- The lines that are written are the lines that are scanned.
pub scan_lines-unlines : (ls : List Bytes) → All (All InLine) ls → scan_lines (unlines ls) ≡ ls
unfolding scan_lines
scan_lines-unlines ls h = rw (split-unlines ls h, drop-empty ls) (map-drop_return ls h)

plain-InLine : (s : Bytes) → All IsPlain s → All InLine s
plain-InLine s h =
    All-map IsPlain InLine (λ c k. record { no_newline = k.no_newline; no_return = k.no_return }) s
      h

pub join-InLine : (cols : List Bytes) → All (All IsPlain) cols → All InLine (join b':' cols)
unfolding join
join-InLine [] h = tt
join-InLine (p ∷ []) (hp, _) = plain-InLine p hp
join-InLine (p ∷ q ∷ ps) (hp, h) =
    All-append InLine p _ (plain-InLine p hp) (omega arith, join-InLine (q ∷ ps) h)

IsPlain-part : (s : Bytes) → Lacks b':' s → All InLine s → All IsPlain s
IsPlain-part [] h k = tt
IsPlain-part (c ∷ s) (hc, h) (kc, k) = (
  record { no_colon = hc; no_newline = kc.no_newline; no_return = kc.no_return },
  IsPlain-part s h k,
)

All-IsPlain : (ps : List Bytes) → All (Lacks b':') ps → All (All InLine) ps → All (All IsPlain) ps
All-IsPlain [] h k = tt
All-IsPlain (p ∷ ps) (hp, h) (kp, k) = (IsPlain-part p hp kp, All-IsPlain ps h k)

-- The parts of a line, where there are as many as the file has columns.
pub cut-IsPlain :
    (colons : ℕ) (l : Bytes)
    → All InLine l
    → length (split_n b':' colons l) ≤ colons
    → All (All IsPlain) (split_n b':' colons l)
cut-IsPlain colons l in_line fits =
    All-IsPlain _ (split_n-All-Lacks b':' colons l fits) (All-split_n b':' InLine colons l in_line)

All-split {κ} :
    (P : ℕ → Type κ) (sep : ℕ) (s : Bytes)
    → All P s
    → All (All P) (split sep s) × All (Lacks sep) (split sep s)
unfolding split
All-split P sep [] h = ((tt, tt), (tt, tt))
All-split P sep (c ∷ s) (hc, h) =
    let (ps, lacks) = All-split P sep s h in
    elim (Bool-cases (c == sep)) [
      | inl cut ↦ rw cut ((tt, ps), (tt, lacks))
      | inr keep ↦ rw keep (
        All-cons_first sep P c (split sep s) hc ps,
        All-cons_first sep (λ b. b ≢ sep) c (split sep s) (ground arith) lacks,
      )
    ]

drop_last_empty-All {κ} :
    (P : Bytes → Type κ) (ls : List Bytes) → All P ls → All P (drop_last_empty ls)
unfolding drop_last_empty
drop_last_empty-All P [] h = tt
drop_last_empty-All P (l ∷ []) h = elim (Bool-cases (is_empty l)) [
  | inl e ↦ rw e tt
  | inr e ↦ rw e h
]
drop_last_empty-All P (l ∷ m ∷ ls) (hl, h) = (hl, drop_last_empty-All P (m ∷ ls) h)

InLine-part : (s : Bytes) → All (λ c. c ≢ b'\r') s → Lacks b'\n' s → All InLine s
InLine-part [] h k = tt
InLine-part (c ∷ s) (hc, h) (kc, k) =
    (record { no_newline = kc; no_return = hc }, InLine-part s h k)

All-InLine : (ls : List Bytes) → All (Lacks b'\r') ls → All (Lacks b'\n') ls → All (All InLine) ls
All-InLine [] h k = tt
All-InLine (l ∷ ls) (hl, h) (kl, k) = (InLine-part l hl kl, All-InLine ls h k)

-- The lines of a text without returns hold neither newlines nor returns.
pub scan_lines-InLine : (text : Bytes) → Lacks b'\r' text → All (All InLine) (scan_lines text)
unfolding scan_lines
scan_lines-InLine text h =
    let (returns, newlines) = All-split (λ c. c ≢ b'\r') b'\n' text h in
    let lines =
      All-InLine (drop_last_empty (split b'\n' text)) (drop_last_empty-All (Lacks b'\r') _ returns)
        (drop_last_empty-All (Lacks b'\n') _ newlines) in
    rw (map-drop_return _ lines) lines
