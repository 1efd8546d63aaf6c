-- ===== src/Script/Steady.antt =====
-- src/sv_interface/script.c, `static_evaltest`, with a client whose answers about a message depend
-- on nothing but the question.
use libsieve.Prelude.{
  ℕ, ◌==◌, true, false, List, [], ◌∷◌, Option, none, some, Text, codes, any, ◌≡◌, refl, ap, ◌∙◌,
  Bool-cases, inl, inr,
}
use libsieve.Libc.{same_name}
use libsieve.Run.{Run, ok, ◌>>=◌, Returns, Returns-bind, Returns-mono, sieve2_ok}
use libsieve.Tree.Stringlist.{of_list}
use libsieve.Context.Values.{
  message_getheader, message_getsize, as_stringlist, as_int, int_or_minus_one, set_string,
}
use libsieve.Context.Brackets.{IsClosed}
use libsieve.Context.Exchange.{first_fit}
use libsieve.Context.State.{client, Context, Client}
use libsieve.Callbacks.Frame.{Leaves}
use libsieve.Callbacks.Queries.{header_answer, do_getheader, do_getsize}
use libsieve.Callbacks.Answers.{told, Answers, do_getheader-client, do_getsize-client}
use libsieve.Outside.{Outside}
use libsieve.Script.Flags
use libsieve.Script.Syntax.{
  Match, Test, null, address, envelope, anyof, allof, exists, sfalse, strue, header, hasflag,
  not_test, over, under, size, Testlist, no_tests, tests,
}
use libsieve.Script.Matching.{header_loop}
use libsieve.Script.Evaltest.{size_test, exists_loop, evaltest, anyof_loop, allof_loop}
use libsieve.Script.Meaning.{
  Mail, is_there, fits_header, all_there, holds, some_hold, all_hold, AreDecided, IsPlain, ArePlain,
}
use libsieve.Script.Decided.{header_one-fits}

-- The client's functions at two addresses tell the headers and the size of a message, whatever the
-- state of the client and of the context.
pub record Tells {W : Type 0} (respond : Client W) (a b : ℕ) (mail : Mail) : Type 0 where
  pub bodies :
      (name : Text) (c : Context W)
      → first_fit as_stringlist
          (codes "body")
          (told respond a message_getheader (set_string (some (codes "header")) (some name) ∷ []) c)
        ≡ mail.bodies name
  pub size :
      (c : Context W)
      → int_or_minus_one (first_fit as_int (codes "size") (told respond b message_getsize [] c))
        ≡ mail.size

-- The two functions are registered, no call is open, and the flags are in live memory.
pub record Serves {W : Type 0} (a b : ℕ) (flags : List Text) (c : Context W) : Type 0 where
  pub closed : IsClosed c.cur_call
  pub getheader : c.callbacks.getheader ≡ some (client a)
  pub getsize : c.callbacks.getsize ≡ some (client b)
  pub slflags : c.slflags ≡ of_list flags

module _ {W : Type 0} where
  pub Leaves-refl : (c : Context W) → IsClosed c.cur_call → Leaves c c
  Leaves-refl c closed = record {
    message = refl;
    slflags = refl;
    callbacks = refl;
    actions = refl;
    closed = closed;
  }

  pub Leaves-trans : {c d e : Context W} → Leaves c d → Leaves d e → Leaves c e
  Leaves-trans p q = record {
    message = q.message ∙ p.message;
    slflags = q.slflags ∙ p.slflags;
    callbacks = q.callbacks ∙ p.callbacks;
    actions = q.actions ∙ p.actions;
    closed = q.closed;
  }

  Serves-Leaves :
      {a b : ℕ} {flags : List Text} {c d : Context W}
      → Serves a b flags c
      → Leaves c d
      → Serves a b flags d
  Serves-Leaves s l = record {
    closed = l.closed;
    getheader = ap (λ cb. cb.getheader) l.callbacks ∙ s.getheader;
    getsize = ap (λ cb. cb.getsize) l.callbacks ∙ s.getsize;
    slflags = l.slflags ∙ s.slflags;
  }

  answer_known :
      {A : Type 0} (x : A) (c : Context W) → IsClosed c.cur_call → Returns (Answers c x) (ok (x, c))
  answer_known x c closed = (refl, Leaves-refl c closed)

  -- A run that answers goes on with what it answers.
  answer_bind :
      {A B : Type 0} (x : A) (y : B) (c : Context W) (m : Run (A × Context W))
      (f : A × Context W → Run (B × Context W))
      → Returns (Answers c x) m
      → ((d : Context W) → Leaves c d → Returns (Answers d y) (f (x, d)))
      → Returns (Answers c y) (m >>= f)
  answer_bind x y c m f h k = Returns-bind (Answers c x) (Answers c y) m f h (λ (z, d) (e, l).
      rw e (
        Returns-mono (Answers d y) (Answers c y) (f (x, d)) (λ r (e', l'). (e', Leaves-trans l l'))
          (k d l)))

find_flag-any :
    (s : Text) (flags : List Text)
    → Flags.find_flag s (of_list flags) ≡ ok (any (λ t. same_name t s) flags)
unfolding Flags.find_flag
find_flag-any s [] = refl
find_flag-any s (t ∷ flags) = elim (Bool-cases (same_name t s)) [
  | inl hit ↦ rw hit refl
  | inr miss ↦ rw (miss, find_flag-any s flags) refl
]

hasflag-any :
    (sl flags : List Text)
    → Flags.hasflag (of_list sl) (of_list flags) ≡ ok (any (λ s. any (λ t. same_name t s) flags) sl)
unfolding Flags.hasflag
hasflag-any [] flags = refl
hasflag-any (s ∷ sl) flags = elim (Bool-cases (any (λ t. same_name t s) flags)) [
  | inl hit ↦ rw (find_flag-any s flags, hit) refl
  | inr miss ↦ rw (find_flag-any s flags, miss, hasflag-any sl flags) refl
]

header_answer-is_there :
    (bodies : Option (List Text)) → ((header_answer bodies).0 == sieve2_ok) ≡ is_there bodies
unfolding header_answer
header_answer-is_there none = refl
header_answer-is_there (some []) = refl
header_answer-is_there (some (body ∷ bodies)) = refl

module _ {R W : Type 0} (o : Outside R W) (a b : ℕ) (mail : Mail) (tells : Tells o.respond a b mail)
    (flags : List Text) where
  do_getheader-told :
      (name : Text) (c : Context W)
      → Serves a b flags c
      → Returns
          (Answers c (header_answer (mail.bodies name)))
          (do_getheader o.respond (some name) c)
  do_getheader-told name c s =
      rw (← tells.bodies name c) (do_getheader-client o.respond a name c s.closed s.getheader)

  do_getsize-told :
      (c : Context W)
      → Serves a b flags c
      → Returns (Answers c (0, mail.size)) (do_getsize o.respond c)
  do_getsize-told c s = rw (← tells.size c) (do_getsize-client o.respond b c s.closed s.getsize)

  exists_loop-all_there :
      (sl : List Text) (c : Context W)
      → Serves a b flags c
      → Returns (Answers c (all_there mail sl)) (exists_loop o sl c)
  unfolding exists_loop header_answer
  exists_loop-all_there [] c s = answer_known true c s.closed
  exists_loop-all_there (n ∷ sl) c s = answer_bind _ _ c _ _ (do_getheader-told n c s) (λ d l.
      rw (header_answer-is_there (mail.bodies n)) (elim (Bool-cases (is_there (mail.bodies n))) [
        | inl hit ↦ rw hit (exists_loop-all_there sl d (Serves-Leaves s l))
        | inr miss ↦ rw miss (answer_known false d l.closed)
      ]))

  header_loop-found :
      (m : Match R) (sl : List Text) (c : Context W) → header_loop o m sl true c ≡ ok (true, c)
  unfolding header_loop
  header_loop-found m [] c = refl
  header_loop-found m (n ∷ sl) c = refl

  header_loop-any :
      (m : Match R) (sl : List Text) (c : Context W)
      → AreDecided o m.comp m.pl
      → Serves a b flags c
      → Returns
          (Answers c (any (λ n. fits_header o m (mail.bodies n)) sl))
          (header_loop o m sl false c)
  unfolding header_loop
  header_loop-any m [] c d s = answer_known false c s.closed
  header_loop-any m (n ∷ sl) c d s = answer_bind _ _ c _ _ (do_getheader-told n c s) (λ e l.
      rw (header_one-fits o m (mail.bodies n) d)
        (elim (Bool-cases (fits_header o m (mail.bodies n))) [
          | inl hit ↦ rw (hit, header_loop-found m sl e) (answer_known true e l.closed)
          | inr miss ↦ rw miss (header_loop-any m sl e d (Serves-Leaves s l))
        ]))

  mutual
    unfolding evaltest holds size_test

    test_agrees :
        (t : Test R) (c : Context W)
        → IsPlain o t
        → Serves a b flags c
        → Returns (Answers c (holds o mail flags t)) (evaltest o t c)
    test_agrees null c p s = answer_known false c s.closed
    test_agrees (address part m) c p s = absurd p
    test_agrees (envelope part m) c p s = absurd p
    test_agrees (anyof tl) c p s = some_agree tl c p s
    test_agrees (allof tl) c p s = all_agree tl c p s
    test_agrees (exists sl) c p s = exists_loop-all_there sl c s
    test_agrees sfalse c p s = answer_known false c s.closed
    test_agrees strue c p s = answer_known true c s.closed
    test_agrees (header m) c p s = header_loop-any m m.sl c p s
    test_agrees (hasflag sl) c p s =
        rw (ap (Flags.hasflag (of_list sl)) s.slflags ∙ hasflag-any sl flags)
          (answer_known _ c s.closed)
    test_agrees (not_test t) c p s =
        answer_bind (holds o mail flags t) _ c _ _ (test_agrees t c p s)
          (λ d l. answer_known _ d l.closed)
    test_agrees (size over n) c p s =
        answer_bind _ _ c _ _ (do_getsize-told c s) (λ d l. answer_known _ d l.closed)
    test_agrees (size under n) c p s =
        answer_bind _ _ c _ _ (do_getsize-told c s) (λ d l. answer_known _ d l.closed)

    some_agree :
        (tl : Testlist R) (c : Context W)
        → ArePlain o tl
        → Serves a b flags c
        → Returns (Answers c (some_hold o mail flags tl)) (anyof_loop o tl c)
    some_agree no_tests c p s = answer_known false c s.closed
    some_agree (tests t tl) c p s = answer_bind _ _ c _ _ (test_agrees t c p.0 s) (λ d l.
        elim (Bool-cases (holds o mail flags t)) [
          | inl hit ↦ rw hit (answer_known true d l.closed)
          | inr miss ↦ rw miss (some_agree tl d p.1 (Serves-Leaves s l))
        ])

    all_agree :
        (tl : Testlist R) (c : Context W)
        → ArePlain o tl
        → Serves a b flags c
        → Returns (Answers c (all_hold o mail flags tl)) (allof_loop o tl c)
    all_agree no_tests c p s = answer_known true c s.closed
    all_agree (tests t tl) c p s = answer_bind _ _ c _ _ (test_agrees t c p.0 s) (λ d l.
        answer_bind _ _ d _ _ (test_agrees t d p.0 (Serves-Leaves s l)) (λ e k.
          elim (Bool-cases (holds o mail flags t)) [
            | inl hit ↦ rw hit (all_agree tl e p.1 (Serves-Leaves s (Leaves-trans l k)))
            | inr miss ↦ rw miss (answer_known false e k.closed)
          ]))

pub evaltest-holds :
    {R W : Type 0} (o : Outside R W) (a b : ℕ) (mail : Mail) (flags : List Text) (t : Test R)
    (c : Context W)
    → Tells o.respond a b mail
    → IsPlain o t
    → Serves a b flags c
    → Returns (Answers c (holds o mail flags t)) (evaltest o t c)
evaltest-holds o a b mail flags t c tells p s = test_agrees o a b mail tells flags t c p s
