-- ===== src/Tui/Window/Unfiltered.antt =====
-- The detail of the log under a filter.
use inter_fire.Prelude.{
  ◌≡◌, refl, ap, ◌∙◌, Bool, true, false, List, [], ◌∷◌, Text, filter, In, get_elem?, if◌then◌else◌,
  inl, inr,
}
use inter_fire.Tui.{Tab}
use inter_fire.Tui.App.{App, filtered_audit, shows}
use inter_fire.Tui.Window.{detail_lines, lines_of, event_lines}

-- What is kept of a line and what the filter kept of the lines behind it
In-kept :
    (p : Text → Bool) (t x : Text) (kept : List Text) (b : Bool)
    → p x ≡ b
    → (In t kept → p t ≡ true)
    → In t (if b then x ∷ kept else kept)
    → p t ≡ true
In-kept p t x kept true e rest (inl same) = ap p same ∙ e
In-kept p t x kept true e rest (inr i) = rest i
In-kept p t x kept false e rest i = rest i

-- What a filter keeps satisfies its test.
In-filter_kept : (p : Text → Bool) (t : Text) (xs : List Text) → In t (filter p xs) → p t ≡ true
In-filter_kept p t [] i = absurd i
In-filter_kept p t (x ∷ xs) i = In-kept p t x (filter p xs) (p x) refl (In-filter_kept p t xs) i

-- The detail ignores the filter: on the tab of events, with the first row selected and a filter that hides the oldest line of the log, the detail is that oldest line, which is not among the lines that are listed.
pub detail_unfiltered :
    (app : App) (front : Text) (rest : List Text)
    → app.tab ≡ Tab.events
    → app.audit ≡ front ∷ rest
    → app.list_selected ≡ 0
    → shows app.events_filter front ≡ false
    → (detail_lines app ≡ front ∷ []) × ¬ In front (filtered_audit app)
unfolding detail_lines
detail_unfiltered app front rest on_events lines first hidden = (
  ap (λ t. lines_of t app) on_events
      ∙ ap (λ xs. event_lines (get_elem? xs app.list_selected)) lines
      ∙ ap (λ i. event_lines (get_elem? (front ∷ rest) i)) first,
  λ i. let kept = In-filter_kept (shows app.events_filter) front app.audit i in cc,
)
