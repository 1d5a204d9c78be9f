-- ===== src/Print/TypedPrinter/Rules.antt =====
-- When a visit of lib/AST/TypedASTPrinter.cpp draws a tree, and the rules for the steps it is made of.
use trsc.Common.{
  ltb, if◌then◌else◌, length, length-append, ℕ, suc, ◌+◌, ◌-◌, ◌%◌, ◌^◌, ◌<◌, ◌≡◌, refl, sym, ap,
  ◌∙◌, Bool, true, false, List, [], ◌∷◌, ◌++◌, append-nil, append_assoc, arith,
}
use trsc.Print.Pieces.{Piece}
use trsc.Print.TypedPrinter.{
  TypedPrinter, Print, ◌▸◌, skip, write, when, deeper, shallower, resize, pop_back, is_empty, blank,
  bar, branch, bars, print_indent, push_flag, pop_flag, print_child, push_element, pop_element,
  print_element,
}
use trsc.Print.TypedPrinter.Drawing.{
  Tree, Branches, trunks, draw, draw_branches, height, height_branches, ◌⧺◌, draw_branches-append,
  height_branches-append, nothing, line, no_branches, add_branch,
}

abbrev pub printer : List Piece → ℕ → List Bool → TypedPrinter
printer out n stack = record { os = out; indent_level = n; is_last_stack = stack }

-- Where the stack is as long as the level, a visit draws the tree and leaves level and stack as they are.
pub Draws : Print → Tree → Type 0
Draws visit t =
    (out : List Piece) (above : List Bool)
    → suc (length above) + height t < 2 ^ 32
    → visit (printer out (length above) above) ≡ printer (out ++ draw above t) (length above) above

-- The same of the branches below a line, where the level is entered and the stack not yet grown.
pub DrawsBranches : Print → Branches → Type 0
DrawsBranches visit bs =
    (out : List Piece) (above : List Bool)
    → suc (length above) + height_branches bs < 2 ^ 32
    → visit (printer out (suc (length above)) above)
      ≡ printer (out ++ draw_branches above bs) (suc (length above)) above

resize-length : (bs : List Bool) → resize (length bs) bs ≡ bs
unfolding resize
resize-length [] = refl
resize-length (b ∷ bs) = ap (◌∷◌ b) (resize-length bs)

pop_back-append : (bs : List Bool) (b : Bool) → pop_back (bs ++ b ∷ []) ≡ bs
unfolding pop_back
pop_back-append [] b = refl
pop_back-append (c ∷ []) b = refl
pop_back-append (c ∷ (d ∷ bs)) b = ap (◌∷◌ c) (pop_back-append (d ∷ bs) b)

is_empty-append : (bs : List Bool) (b : Bool) → is_empty (bs ++ b ∷ []) ≡ false
unfolding is_empty
is_empty-append [] b = refl
is_empty-append (c ∷ bs) b = refl

bars-trunks : (bs : List Bool) → bars (length bs) bs ≡ trunks bs
unfolding bars trunks
bars-trunks [] = refl
bars-trunks (b ∷ bs) = ap (◌∷◌ (if b then blank else bar)) (bars-trunks bs)

length-snoc : (bs : List Bool) (b : Bool) → length (bs ++ b ∷ []) ≡ suc (length bs)
length-snoc bs b = omega (arith, length-append bs (b ∷ []))

push_flag-at :
    (out : List Piece) (above : List Bool) (b : Bool)
    → push_flag b (printer out (suc (length above)) above)
      ≡ printer out (suc (length above)) (above ++ b ∷ [])
unfolding push_flag
push_flag-at out above b =
    let level : ltb 0 (suc (length above)) ≡ true = ground arith in
    let above_level : suc (length above) - 1 ≡ length above = omega arith in
    rw (level, above_level, resize-length above) refl

push_element-at :
    (out : List Piece) (above : List Bool) (b : Bool)
    → suc (length above) < 2 ^ 32
    → push_element b (printer out (suc (length above)) above)
      ≡ printer out (suc (length above)) (above ++ b ∷ [])
unfolding push_element
push_element-at out above b h =
    let level : (suc (length above) + 2 ^ 32 - 1) % 2 ^ 32 ≡ length above = omega arith in
    ap (λ n. printer out (suc (length above)) (resize n above ++ b ∷ [])) level
    ∙ ap (λ s. printer out (suc (length above)) (s ++ b ∷ [])) (resize-length above)

pop_flag-at :
    (out : List Piece) (above : List Bool) (b : Bool)
    → pop_flag (printer out (suc (length above)) (above ++ b ∷ []))
      ≡ printer out (suc (length above)) above
unfolding pop_flag
pop_flag-at out above b =
    let level : ltb 0 (suc (length above)) ≡ true = ground arith in
    rw (level, is_empty-append above b, pop_back-append above b) refl

pop_element-at :
    (out : List Piece) (n : ℕ) (above : List Bool) (b : Bool)
    → pop_element (printer out n (above ++ b ∷ [])) ≡ printer out n above
unfolding pop_element
pop_element-at out n above b = ap (printer out n) (pop_back-append above b)

print_indent-at :
    (out : List Piece) (above : List Bool) (b : Bool)
    → print_indent b (printer out (suc (length above)) (above ++ b ∷ []))
      ≡ printer
          (out ++ (trunks (above ++ b ∷ []) ++ branch b ∷ []))
          (suc (length above))
          (above ++ b ∷ [])
unfolding print_indent
print_indent-at out above b =
    let level : ltb 0 (suc (length above)) ≡ true = ground arith in
    let all : bars (suc (length above)) (above ++ b ∷ []) ≡ trunks (above ++ b ∷ []) =
      ap (λ n. bars n (above ++ b ∷ [])) (sym (length-snoc above b))
      ∙ bars-trunks (above ++ b ∷ []) in
    rw (level, all) refl

deeper-at :
    (out : List Piece) (above : List Bool)
    → suc (length above) < 2 ^ 32
    → deeper (printer out (length above) above) ≡ printer out (suc (length above)) above
unfolding deeper
deeper-at out above h =
    let level : (length above + 1) % 2 ^ 32 ≡ suc (length above) = omega arith in
    ap (λ n. printer out n above) level

shallower-at :
    (out : List Piece) (above : List Bool)
    → suc (length above) < 2 ^ 32
    → shallower (printer out (suc (length above)) above) ≡ printer out (length above) above
unfolding shallower
shallower-at out above h =
    let level : (suc (length above) + 2 ^ 32 - 1) % 2 ^ 32 ≡ length above = omega arith in
    ap (λ n. printer out n above) level

-- The visit of a child, one level below, and with the flag of the child on the stack.
Draws-below :
    (visit : Print) (t : Tree) (b : Bool) (out : List Piece) (above : List Bool)
    → Draws visit t
    → suc (length above) + suc (height t) < 2 ^ 32
    → visit (printer out (suc (length above)) (above ++ b ∷ []))
      ≡ printer (out ++ draw (above ++ b ∷ []) t) (suc (length above)) (above ++ b ∷ [])
unfolding Draws
Draws-below visit t b out above h fits =
    let snoc = length-snoc above b in
    ap (λ n. visit (printer out n (above ++ b ∷ []))) (sym snoc)
    ∙ h out (above ++ b ∷ []) (omega arith)
    ∙ ap (λ n. printer (out ++ draw (above ++ b ∷ []) t) n (above ++ b ∷ [])) snoc

module _ (visit : Print) (t : Tree) (b : Bool) (h : Draws visit t) where
  pub Draws-child : DrawsBranches (print_child b visit) (add_branch b [] t no_branches)
  unfolding print_child DrawsBranches draw height
  Draws-child out above fits =
      let indented : List Piece = out ++ (trunks (above ++ b ∷ []) ++ branch b ∷ []) in
      ap (λ p. pop_flag (visit (print_indent b p))) (push_flag-at out above b)
      ∙ ap (λ p. pop_flag (visit p)) (print_indent-at out above b)
      ∙ ap pop_flag (Draws-below visit t b indented above h (omega arith))
      ∙ pop_flag-at (indented ++ draw (above ++ b ∷ []) t) above b
      ∙ ap (λ o. printer o (suc (length above)) above) (simp (append_assoc, append-nil))

  pub Draws-element :
      (before : List Piece)
      → DrawsBranches (print_element b before visit) (add_branch b before t no_branches)
  unfolding print_element DrawsBranches draw height
  Draws-element before out above fits =
      let indented : List Piece = out ++ (trunks (above ++ b ∷ []) ++ branch b ∷ []) in
      let n : ℕ = suc (length above) in
      ap (λ p. pop_element (visit (write before (print_indent b p))))
        (push_element-at out above b (omega arith))
      ∙ ap (λ p. pop_element (visit (write before p))) (print_indent-at out above b)
      ∙ ap pop_element (Draws-below visit t b (indented ++ before) above h (omega arith))
      ∙ pop_element-at (indented ++ before ++ draw (above ++ b ∷ []) t) n above b
      ∙ ap (λ o. printer o n above) (simp (append_assoc, append-nil))

pub Draws-nothing : Draws skip nothing
unfolding Draws draw
Draws-nothing out above fits = ap (λ o. printer o (length above) above) (sym (append-nil out))

pub Draws-leaf : (label : List Piece) → Draws (write label) (line label no_branches)
unfolding Draws draw
Draws-leaf label out above fits =
    ap (λ o. printer (out ++ o) (length above) above) (sym (append-nil label))

pub DrawsBranches-skip : DrawsBranches skip no_branches
unfolding DrawsBranches draw
DrawsBranches-skip out above fits =
    ap (λ o. printer o (suc (length above)) above) (sym (append-nil out))

pub DrawsBranches-then :
    (f g : Print) (bs cs : Branches)
    → DrawsBranches f bs
    → DrawsBranches g cs
    → DrawsBranches (f ▸ g) (bs ⧺ cs)
unfolding DrawsBranches
DrawsBranches-then f g bs cs hf hg out above fits =
    let sum = height_branches-append bs cs in
    ap g (hf out above (omega arith))
    ∙ hg (out ++ draw_branches above bs) above (omega arith)
    ∙ ap (λ o. printer o (suc (length above)) above)
        (simp (draw_branches-append above bs cs, append_assoc))

abbrev pub some_branches : Bool → Branches → Branches
some_branches true bs = bs
some_branches false bs = no_branches

pub DrawsBranches-when :
    (b : Bool) (f : Print) (bs : Branches)
    → DrawsBranches f bs
    → DrawsBranches (when b f) (some_branches b bs)
DrawsBranches-when true f bs h = h
DrawsBranches-when false f bs h = DrawsBranches-skip

pub Draws-line :
    (label : List Piece) (f : Print) (bs : Branches)
    → DrawsBranches f bs
    → Draws (write label ▸ deeper ▸ f ▸ shallower) (line label bs)
unfolding Draws DrawsBranches draw height
Draws-line label f bs h out above fits =
    ap (λ p. shallower (f p)) (deeper-at (out ++ label) above (omega arith))
    ∙ ap shallower (h (out ++ label) above fits)
    ∙ shallower-at (out ++ label ++ draw_branches above bs) above (omega arith)
    ∙ ap (λ o. printer o (length above) above) (append_assoc out label (draw_branches above bs))

-- The same where the level is entered only if there are branches.
pub Draws-line_when :
    (b : Bool) (label : List Piece) (f : Print) (bs : Branches)
    → DrawsBranches f bs
    → Draws (write label ▸ when b (deeper ▸ f ▸ shallower)) (line label (some_branches b bs))
Draws-line_when true label f bs h = Draws-line label f bs h
Draws-line_when false label f bs h = Draws-leaf label

-- From the start, with nothing written.
pub Draws-new :
    (visit : Print) (t : Tree)
    → Draws visit t
    → suc (height t) < 2 ^ 32
    → visit (printer [] 0 []) ≡ printer (draw [] t) 0 []
unfolding Draws
Draws-new visit t h fits = h [] [] (omega arith)
