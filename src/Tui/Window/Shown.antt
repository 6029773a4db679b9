-- ===== src/Tui/Window/Shown.antt =====
-- The window of the log shows the selected line.
use inter_fire.Prelude.{
  ℕ, zero, suc, ◌+◌, ◌-◌, ◌≡◌, ◌≤◌, ◌<◌, refl, ap, ◌∙◌, false, List, [], ◌∷◌, min, max, Text,
  length, take, drop, get_elem?, length-drop, nat_eq, arith,
}
use inter_fire.Tui.App.{App, filtered_audit}
use inter_fire.Tui.Window.{window_of, start_of, visible_audit_window}

get_elem?-drop : (n i : ℕ) (xs : List Text) → get_elem? (drop n xs) i ≡ get_elem? xs (n + i)
get_elem?-drop zero i xs = ap (get_elem? xs) (omega arith)
get_elem?-drop (suc n) i [] = refl
get_elem?-drop (suc n) i (x ∷ xs) =
    get_elem?-drop n i xs
    ∙ ap (get_elem? (x ∷ xs)) (let e : suc (n + i) ≡ suc n + i = omega arith in e)

get_elem?-take : (n i : ℕ) (xs : List Text) → i < n → get_elem? (take n xs) i ≡ get_elem? xs i
get_elem?-take zero i xs h = absurd (omega arith)
get_elem?-take (suc n) i [] h = refl
get_elem?-take (suc n) zero (x ∷ xs) h = refl
get_elem?-take (suc n) (suc i) (x ∷ xs) h = get_elem?-take n i xs (omega arith)

length-take : (n : ℕ) (xs : List Text) → length (take n xs) ≡ min n (length xs)
length-take zero xs = omega arith
length-take (suc n) [] = omega arith
length-take (suc n) (x ∷ xs) = omega (arith, length-take n xs)

start-bounds :
    (total height selected : ℕ)
    → 0 < height
    → selected < total
    → (start_of total height selected ≤ selected)
      × (selected < start_of total height selected + height)
      × (start_of total height selected ≤ total)
start-bounds total height selected h k = ground arith

window_of-shown :
    (lines : List Text) (height selected : ℕ)
    → 0 < height
    → selected < length lines
    → let v = window_of lines height selected in
      (get_elem? v.items v.relative_selected ≡ get_elem? lines selected)
      × (v.relative_selected < length v.items)
      × (length v.items ≤ height)
window_of-shown lines height selected h k =
    let total = length lines in
    let start = start_of total height selected in
    let count = min (start + height) total - start in
    let (low, high, fits) = start-bounds total height selected h k in
    let size = length-take count (drop start lines) in
    let rest = length-drop start lines in
    let short : selected - start < count = omega arith in
    (
      get_elem?-take count (selected - start) (drop start lines) short
          ∙ get_elem?-drop start (selected - start) lines
          ∙ ap (get_elem? lines) (let e : start + (selected - start) ≡ selected = omega arith in e),
      omega (arith, size, rest),
      omega (arith, size),
    )

-- The window of the log shows the selection: where the log has a line for the filter, and the selection is on one, the row that is marked in the window is that line, it stands within the window, and the window has no more rows than the viewport, or one if that has none.
pub visible_audit_window_lem :
    (viewport : ℕ) (app : App)
    → app.list_selected < length (filtered_audit app)
    → let v = visible_audit_window viewport app in
      (get_elem? v.items v.relative_selected ≡ get_elem? (filtered_audit app) app.list_selected)
      × (v.relative_selected < length v.items)
      × (length v.items ≤ max viewport 1)
unfolding visible_audit_window
visible_audit_window_lem viewport app h =
    let lines = filtered_audit app in
    let some_lines : nat_eq (length lines) 0 ≡ false = ground arith in
    let inside : min app.list_selected (length lines - 1) ≡ app.list_selected = omega arith in
    rw (some_lines, inside)
      (window_of-shown lines (max viewport 1) app.list_selected (omega arith) h)
