-- ===== src/Tui/Stale.antt =====
-- The answer of a prompt whose form is open.
use inter_fire.Prelude.{◌≡◌, ap, ◌∙◌, subst, not, Text, if◌then◌else◌, lit}
use inter_fire.Tui.{enter, AnswerPromptForm, answer_command, closed, answering, notice, command}
use inter_fire.Tui.App.{App}
use inter_fire.Tui.Keys.{with_overlay, handle_answer_overlay_key, handle_overlay_key, handle_key}
use inter_fire.Tui.Reachable.{Reach, Reach-IsValid}
use inter_fire.Tui.Selection.{IsFresh}

-- An open answer form is never refused as stale: in every state that the client comes to, Enter sends the answer of the form, however long the form has been open and whatever the list of the prompts has become.
pub stale_answer :
    (socket : Text) {app : App} (form : AnswerPromptForm)
    → Reach socket app
    → app.overlay ≡ answering form
    → handle_key enter app ≡ (command (answer_command form), record app { overlay = closed })
unfolding handle_key handle_overlay_key handle_answer_overlay_key
stale_answer socket {app} form r e =
    ap (λ o. handle_overlay_key o enter app) e
    ∙ ap
        (λ b.
          if not b
          then with_overlay (notice (lit "prompt expired or stale; actions disabled")) app
          else (command (answer_command form), record app { overlay = closed }))
        (subst IsFresh e (Reach-IsValid socket r).fresh)
