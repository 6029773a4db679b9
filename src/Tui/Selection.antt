-- ===== src/Tui/Selection.antt =====
-- What every key and every event keeps: a selection within the list that is shown, a bounded log, and
-- an answer form for a prompt that could be answered.
use inter_fire.Prelude.{
  ℕ, ◌+◌, ◌-◌, ◌≡◌, ◌≤◌, refl, sym, Bool, true, false, [], ◌∷◌, ◌++◌, Text, length, length-append,
  length-drop, arith, nat_eq, nat_eq_iff, subst, if◌then◌else◌,
}
use inter_fire.Proto.Rows.{can_answer}
use inter_fire.Tui.{Tab, Pane, Submitted, Overlay, closed, notice, answering, KeyAction}
use inter_fire.Tui.App.{
  App, apply, IpcEvent, list_len, clamp, clamp_selection, popped, pop_front, push_audit_line,
  max_audit_lines, subscription_ready, action_ok, action_error,
}
use inter_fire.Tui.Keys.{submit_form, submit_rule, set_tab, moved, move_list}

-- The prompt of an answer form could be answered when the form was opened.
abbrev pub IsFresh : Overlay → Type 0
IsFresh (answering form) = can_answer form.prompt ≡ true
IsFresh _ = Unit

pub record IsValid (app : App) : Type 0 where
  pub selected : app.list_selected ≤ list_len app - 1
  pub bounded : length app.audit ≤ max_audit_lines
  pub fresh : IsFresh app.overlay

clamp-le : (len selected : ℕ) → clamp len selected ≤ len - 1
clamp-le len selected = ground arith

moved-le : (forwards : Bool) (len selected : ℕ) → moved forwards len selected ≤ len - 1
moved-le true len selected = grind arith
moved-le false len selected = grind arith

clamp_selection-IsValid :
    (app : App)
    → length app.audit ≤ max_audit_lines
    → IsFresh app.overlay
    → IsValid (clamp_selection app)
unfolding clamp_selection
clamp_selection-IsValid app b f = record {
  selected = clamp-le (list_len app) app.list_selected;
  bounded = b;
  fresh = f;
}

pop_bounded :
    (b : Bool) (app : App)
    → nat_eq (length app.audit) max_audit_lines ≡ b
    → length app.audit ≤ max_audit_lines
    → length (if b then popped app else app).audit + 1 ≤ max_audit_lines
pop_bounded true app e h =
    omega (arith, length-drop 1 app.audit, (nat_eq_iff (length app.audit) max_audit_lines).0 e)
pop_bounded false app e h = ground arith

pop_overlay : (b : Bool) (app : App) → (if b then popped app else app).overlay ≡ app.overlay
pop_overlay true app = refl
pop_overlay false app = refl

push_audit_line-IsValid :
    (line : Text) (app : App) → IsValid app → IsValid (push_audit_line line app)
unfolding push_audit_line
push_audit_line-IsValid line app v =
    let full = nat_eq (length app.audit) max_audit_lines in
    let app' = pop_front app in
    clamp_selection-IsValid (record app' { audit = app'.audit ++ (line ∷ []) })
      (omega (arith, length-append app'.audit (line ∷ []), pop_bounded full app refl v.bounded))
      (subst IsFresh (sym (pop_overlay full app)) v.fresh)

pub overlay-IsValid :
    (overlay : Overlay) (app : App)
    → IsValid app
    → IsFresh overlay
    → IsValid (record app { overlay = overlay })
overlay-IsValid overlay app v f = record { selected = v.selected; bounded = v.bounded; fresh = f }

pub choose-IsValid :
    (b : Bool) (x y : KeyAction × App) → IsValid x.1 → IsValid y.1 → IsValid (if b then x else y).1
choose-IsValid true x y v w = v
choose-IsValid false x y v w = w

pub submit_form-IsValid : (s : Submitted) (app : App) → IsValid app → IsValid (submit_form s app).1
submit_form-IsValid (Submitted.ok c) app v = overlay-IsValid closed app v tt
submit_form-IsValid (Submitted.err message) app v = overlay-IsValid (notice message) app v tt

pub submit_rule-IsValid : (s : Submitted) (app : App) → IsValid app → IsValid (submit_rule s app).1
submit_rule-IsValid (Submitted.ok c) app v = overlay-IsValid closed app v tt
submit_rule-IsValid (Submitted.err message) app v = record {
  selected = v.selected;
  bounded = v.bounded;
  fresh = v.fresh;
}

pub set_tab-IsValid : (t : Tab) (app : App) → IsValid app → IsValid (set_tab t app)
unfolding set_tab
set_tab-IsValid t app v =
    clamp_selection-IsValid (record app { tab = t; pane = Pane.list; list_selected = 0 }) v.bounded
      v.fresh

pub move_list-IsValid :
    (forwards : Bool) (app : App) → IsValid app → IsValid (move_list forwards app)
unfolding move_list
move_list-IsValid forwards app v = record {
  selected = moved-le forwards (list_len app) app.list_selected;
  bounded = v.bounded;
  fresh = v.fresh;
}

pub apply-IsValid : (e : IpcEvent) (app : App) → IsValid app → IsValid (apply e app)
unfolding apply
apply-IsValid (IpcEvent.status body) app v = record {
  selected = v.selected;
  bounded = v.bounded;
  fresh = v.fresh;
}
apply-IsValid (IpcEvent.stats_summary body) app v = record {
  selected = v.selected;
  bounded = v.bounded;
  fresh = v.fresh;
}
apply-IsValid (IpcEvent.down detail) app v = record {
  selected = v.selected;
  bounded = v.bounded;
  fresh = v.fresh;
}
apply-IsValid (IpcEvent.audit r) app v = push_audit_line-IsValid _ app v
apply-IsValid subscription_ready app v = record {
  selected = v.selected;
  bounded = v.bounded;
  fresh = v.fresh;
}
apply-IsValid (IpcEvent.rules rows) app v =
    clamp_selection-IsValid (record app { rules = rows }) v.bounded v.fresh
apply-IsValid (IpcEvent.prompts rows) app v =
    clamp_selection-IsValid (record app { prompts = rows }) v.bounded v.fresh
apply-IsValid (IpcEvent.processes rows) app v =
    clamp_selection-IsValid (record app { processes = rows }) v.bounded v.fresh
apply-IsValid (action_ok message) app v = record {
  selected = v.selected;
  bounded = v.bounded;
  fresh = v.fresh;
}
apply-IsValid (action_error message) app v = record {
  selected = v.selected;
  bounded = v.bounded;
  fresh = tt;
}
