-- ===== src/Interface/Reported.antt =====
-- src/sv_parser/sieve.y and callbacks2.c: each error that the parser of scripts reports reaches the
-- client.
use libsieve.Prelude.{ℕ, ◌+◌, List, [], ◌∷◌, some, Text, codes, ℤ, ◌≡◌, refl, ◌∙◌, ap, arith}
use libsieve.Run.{Returns, Returns-bind, Returns-mono}
use libsieve.Context.Brackets.{IsClosed}
use libsieve.Context.Values.{
  errcall_parse, errcall_address, Code, CurCall, SetCall, set_string, set_int, apply_call,
  apply_calls,
}
use libsieve.Context.State.{client, Context, Client, handler_of, client_call}
use libsieve.Callbacks.Brackets.{set_text, set_number, end_call, whole_call}
use libsieve.Callbacks.Frame.{
  Keeps, Keeps-trans, set_text-Keeps, set_number-Keeps, Leaves, whole_call-Leaves,
}
use libsieve.Callbacks.Answers.{opened, open_call-client}
use libsieve.Callbacks.Actions.{do_error_parse, do_error_address}
use libsieve.Script.Steady.{Leaves-refl, Leaves-trans}
use libsieve.Interface.Parsers.{Report, of_script, of_address, Parsers, script_errors}

-- The values of the call that tells of a report.
abbrev pub report_call : Report → CurCall
report_call (of_script lineno msg) =
    apply_calls
      (set_int (some (codes "lineno")) lineno ∷ set_string (some (codes "message")) (some msg) ∷ [])
      (opened errcall_parse)
report_call (of_address msg) =
    apply_calls (set_string (some (codes "message")) (some msg) ∷ []) (opened errcall_address)

-- Only errors of the script are counted.
abbrev pub counted : List Report → ℕ
counted [] = 0
counted (of_script lineno msg ∷ reports) = counted reports + 1
counted (of_address msg ∷ reports) = counted reports

module _ {W : Type 0} (respond : Client W) (of_parse of_addr : ℕ) where
  abbrev pub called_for : Report → ℕ
  called_for (of_script lineno msg) = of_parse
  called_for (of_address msg) = of_addr

  -- What the client's functions leave of the client's state, called for one report after the other.
  abbrev pub delivered : List Report → W → W
  delivered [] w = w
  delivered (report ∷ reports) w =
      delivered reports (respond (called_for report) (report_call report) w).1

  whole_call-client :
      (code : Code) (fill : Context W → Context W) (address : ℕ) (pre : List SetCall)
      (c : Context W)
      → ((b : Context W) → Keeps b (fill b))
      → IsClosed c.cur_call
      → handler_of code c.callbacks ≡ some (client address)
      → ((b : Context W) → fill b ≡ record b { cur_call = apply_calls pre b.cur_call })
      → Returns
          (λ d.
            (d.user_data ≡ (respond address (apply_calls pre (opened code)) c.user_data).1)
            × Leaves c d)
          (whole_call respond code fill c)
  unfolding whole_call
  whole_call-client code fill address pre c keeps closed h fills =
      let run = open_call-client respond code fill address pre c closed h fills in
      let leaves = whole_call-Leaves respond code fill keeps c closed in
      rw run (unfold end_call client_call in refl, rw run at leaves)

  error_parse-delivered :
      (lineno : ℤ) (msg : Text) (c : Context W)
      → IsClosed c.cur_call
      → c.callbacks.err_parse ≡ some (client of_parse)
      → Returns
          (λ (status, d).
            (d.user_data ≡ delivered (of_script lineno msg ∷ []) c.user_data) × Leaves c d)
          (do_error_parse respond lineno (some msg) c)
  unfolding do_error_parse handler_of set_text set_number apply_calls apply_call
  error_parse-delivered lineno msg c closed h =
      Returns-bind
        (λ d. (d.user_data ≡ delivered (of_script lineno msg ∷ []) c.user_data) × Leaves c d) _
        (whole_call respond errcall_parse _ c) _
        (whole_call-client errcall_parse _ of_parse
          (set_int (some (codes "lineno")) lineno
            ∷ set_string (some (codes "message")) (some msg)
            ∷ [])
          c
          (λ b.
            Keeps-trans (set_number-Keeps "lineno" lineno b)
              (set_text-Keeps "message" (some msg) _))
          closed h (λ b. refl))
        (λ d l. l)

  error_address-delivered :
      (msg : Text) (c : Context W)
      → IsClosed c.cur_call
      → c.callbacks.err_address ≡ some (client of_addr)
      → Returns
          (λ (status, d). (d.user_data ≡ delivered (of_address msg ∷ []) c.user_data) × Leaves c d)
          (do_error_address respond (some msg) c)
  unfolding do_error_address handler_of set_text apply_calls apply_call
  error_address-delivered msg c closed h =
      Returns-bind (λ d. (d.user_data ≡ delivered (of_address msg ∷ []) c.user_data) × Leaves c d) _
        (whole_call respond errcall_address _ c) _
        (whole_call-client errcall_address _ of_addr
          (set_string (some (codes "message")) (some msg) ∷ []) c
          (set_text-Keeps "message" (some msg)) closed h (λ b. refl))
        (λ d l. l)

  -- What holds behind the reports, from a count and a context.
  abbrev pub Delivered : List Report → ℕ → Context W → ℕ × Context W → Type 0
  Delivered reports n c (m, d) =
      (m ≡ n + counted reports) × (d.user_data ≡ delivered reports c.user_data) × Leaves c d

  -- With no open call and functions of the client for both kinds of errors, the reports of a parse all
  -- reach the client: its functions are called for one after the other, each with the values that tell
  -- of its report, and what they leave of the client's state in the end is what these calls make of it.
  -- Each error of the script is counted, and otherwise only the values of the current call differ.
  pub script_errors-Delivered :
      {R : Type 0} (p : Parsers R) (reports : List Report) (n : ℕ) (c : Context W)
      → IsClosed c.cur_call
      → c.callbacks.err_parse ≡ some (client of_parse)
      → c.callbacks.err_address ≡ some (client of_addr)
      → Returns (Delivered reports n c) (script_errors respond p reports n c)
  unfolding script_errors
  script_errors-Delivered p [] n c closed h k = (omega arith, refl, Leaves-refl c closed)
  script_errors-Delivered p (of_script lineno msg ∷ reports) n c closed h k =
      Returns-bind
        (λ (status, d).
          (d.user_data ≡ delivered (of_script lineno msg ∷ []) c.user_data) × Leaves c d)
        (Delivered (of_script lineno msg ∷ reports) n c)
        (do_error_parse respond lineno (some msg) c) _ (error_parse-delivered lineno msg c closed h)
        (λ (status, d) (e, l).
          Returns-mono (Delivered reports (n + 1) d)
            (Delivered (of_script lineno msg ∷ reports) n c)
            (script_errors respond p reports (n + 1) d)
            (λ (m, d') (e', f, l').
              (omega (arith, e'), f ∙ ap (delivered reports) e, Leaves-trans l l'))
            (script_errors-Delivered p reports (n + 1) d l.closed
              (ap (λ cb. cb.err_parse) l.callbacks ∙ h)
              (ap (λ cb. cb.err_address) l.callbacks ∙ k)))
  script_errors-Delivered p (of_address msg ∷ reports) n c closed h k =
      Returns-bind
        (λ (status, d). (d.user_data ≡ delivered (of_address msg ∷ []) c.user_data) × Leaves c d)
        (Delivered (of_address msg ∷ reports) n c) (do_error_address respond (some msg) c) _
        (error_address-delivered msg c closed k)
        (λ (status, d) (e, l).
          Returns-mono (Delivered reports n d) (Delivered (of_address msg ∷ reports) n c)
            (script_errors respond p reports n d)
            (λ (m, d') (e', f, l').
              (omega (arith, e'), f ∙ ap (delivered reports) e, Leaves-trans l l'))
            (script_errors-Delivered p reports n d l.closed
              (ap (λ cb. cb.err_parse) l.callbacks ∙ h)
              (ap (λ cb. cb.err_address) l.callbacks ∙ k)))
