-- ===== src/Spike/Generator/Sound/Filling.antt =====
-- The registers and the size of the lines that `resolve` of tools/spike_diff/gen.py makes.
use determinant.Base.{
  ℕ, ◌+◌, ◌≡◌, refl, sym, subst, inl, inr, Option, none, some, List, [], ◌∷◌, ◌++◌, map, arith,
  ◌==◌, Bool-cases, All, All-append,
}
use determinant.Spike.Generator.Lines.{Line, branch, Label, Item}
use determinant.Spike.Generator.Draws.{Gen}
use determinant.Spike.Generator.Lines.{written, line_size, lines_size, lines_size-append}
use determinant.Spike.Generator.Registers.{Free}
use determinant.Spike.Generator.Sound.{IsSound, IsChunk, IsChunk-append, IsChunk-nil}
use determinant.Spike.Generator.Sound.Reservation.{IsSound-IsChunk}
use determinant.Spike.Generator.Resolve.{
  Labels, label_at, fill, fill_all, label_lines, end_lines, lines_from,
}
use determinant.Spike.Generator.Blocks.{items_size}

-- A label changes neither what a line writes nor its size.
fill-written : (l : Label) (line : Line) → written (fill l line) ≡ written line
unfolding fill written
fill-written l (branch op a b t) = refl
fill-written l line = refl

fill-size : (l : Label) (line : Line) → line_size (fill l line) ≡ line_size line
unfolding fill line_size
fill-size l (branch op a b t) = refl
fill-size l line = refl

fill-IsChunk :
    {g : Gen} (l : Label) (ls : List Line) (n : ℕ) → IsChunk g ls n → IsChunk g (map (fill l) ls) n
unfolding lines_size
fill-IsChunk {g} l [] n c = record { spares = tt; sized = c.sized }
fill-IsChunk {g} l (x ∷ xs) n c =
    let (free, rest) = c.spares in
    let d = fill-IsChunk {g = g} l xs (lines_size xs) (record { spares = rest; sized = refl }) in
    record {
      spares = (subst (All (Free g)) (sym (fill-written l x)) free, d.spares);
      sized = omega (arith, fill-size l x, d.sized, c.sized);
    }

fill_all-IsChunk :
    {g : Gen} (t : Option Label) (ls : List Line) (n : ℕ)
    → IsChunk g ls n
    → IsChunk g (fill_all t ls) n
unfolding fill_all
fill_all-IsChunk none ls n c = c
fill_all-IsChunk (some l) ls n c = fill-IsChunk l ls n c

label_lines-IsChunk : {g : Gen} (l : Option Label) → IsChunk g (label_lines l) 0
unfolding label_lines lines_size line_size written
label_lines-IsChunk none = IsChunk-nil
label_lines-IsChunk (some l) = record { spares = (tt, tt); sized = refl }

end_lines-IsChunk : {g : Gen} (l e : Option Label) → IsChunk g (end_lines l e) 0
unfolding end_lines lines_size line_size written
end_lines-IsChunk none e = IsChunk-nil
end_lines-IsChunk (some l) none = record { spares = (tt, tt); sized = refl }
end_lines-IsChunk {g} (some l) (some e) = elim (Bool-cases (l == e)) [
  | inl same ↦ rw (same, end_lines) IsChunk-nil
  | inr other ↦ rw (other, end_lines) (record { spares = (tt, tt); sized = refl })
]

-- Labels in front take no room.
IsChunk-behind :
    {g : Gen} {xs ys : List Line} {n : ℕ} → IsChunk g xs 0 → IsChunk g ys n → IsChunk g (xs ++ ys) n
IsChunk-behind {g} {xs} {ys} cx cy = record {
  spares = All-append (λ l. All (Free g) (written l)) xs ys cx.spares cy.spares;
  sized = omega (arith, lines_size-append xs ys, cx.sized, cy.sized);
}

pub lines_from-IsChunk :
    {g : Gen} (i : ℕ) (e : Option Label) (labels : Labels) (items : List Item)
    (ts : List (Option Label))
    → All (IsSound g) items
    → IsChunk g (lines_from i e labels items ts) (items_size items)
unfolding lines_from items_size
lines_from-IsChunk i e labels [] ts h = end_lines-IsChunk (label_at i labels) e
lines_from-IsChunk i e labels (it ∷ rest) [] (s, h) =
    IsChunk-behind (label_lines-IsChunk (label_at i labels))
      (IsChunk-append (IsSound-IsChunk it s) (lines_from-IsChunk (i + 1) e labels rest [] h))
lines_from-IsChunk i e labels (it ∷ rest) (t ∷ ts) (s, h) =
    IsChunk-behind (label_lines-IsChunk (label_at i labels)) (
      IsChunk-append (fill_all-IsChunk t it.lines it.size (IsSound-IsChunk it s))
        (lines_from-IsChunk (i + 1) e labels rest ts h))
