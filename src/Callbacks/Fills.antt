-- ===== src/Callbacks/Fills.antt =====
-- src/sv_interface/callbacks2.c: the values of the two actions that set the most, and that setting
-- them changes nothing else.
use libsieve.Prelude.{Option, List, Text, ℤ}
use libsieve.Context.State.{Context}
use libsieve.Callbacks.Brackets.{set_text, set_texts, set_number}
use libsieve.Callbacks.Frame.{Keeps, Keeps-trans, set_text-Keeps, set_texts-Keeps, set_number-Keeps}

module _ {W : Type 0} where
  -- The setters of `do_vacation`.
  abbrev pub vacation_fill :
      Option Text
      → Option Text
      → Option Text
      → Option Text
      → Option Text
      → ℤ
      → ℤ
      → Context W
      → Context W
  vacation_fill addr fromaddr subj msg handle days mime b = set_number "mime" mime (
      set_number "days" days (
        set_text "hash" handle (
          set_text "message" msg
            (set_text "subject" subj (set_text "fromaddr" fromaddr (set_text "address" addr b))))))

  pub vacation_fill-Keeps :
      (addr fromaddr subj msg handle : Option Text) (days mime : ℤ) (b : Context W)
      → Keeps b (vacation_fill addr fromaddr subj msg handle days mime b)
  vacation_fill-Keeps addr fromaddr subj msg handle days mime b =
      Keeps-trans (set_text-Keeps "address" addr b) (
        Keeps-trans (set_text-Keeps "fromaddr" fromaddr _) (
          Keeps-trans (set_text-Keeps "subject" subj _) (
            Keeps-trans (set_text-Keeps "message" msg _) (
              Keeps-trans (set_text-Keeps "hash" handle _)
                (Keeps-trans (set_number-Keeps "days" days _) (set_number-Keeps "mime" mime _))))))

  -- The setters of `do_notify`.
  abbrev pub notify_fill :
      Option Text
      → Option Text
      → Option (List Text)
      → Option Text
      → Option Text
      → Context W
      → Context W
  notify_fill id method optionstring priority message b = set_text "message" message (
      set_text "priority" priority
        (set_text "method" method (set_text "id" id (set_texts "options" optionstring b))))

  pub notify_fill-Keeps :
      (id method : Option Text) (optionstring : Option (List Text)) (priority message : Option Text)
      (b : Context W)
      → Keeps b (notify_fill id method optionstring priority message b)
  notify_fill-Keeps id method optionstring priority message b =
      Keeps-trans (set_texts-Keeps "options" optionstring b) (
        Keeps-trans (set_text-Keeps "id" id _) (
          Keeps-trans (set_text-Keeps "method" method _) (
            Keeps-trans (set_text-Keeps "priority" priority _)
              (set_text-Keeps "message" message _))))
