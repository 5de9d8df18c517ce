-- ===== src/Tools/RotateKek.antt =====
-- tools/rotate_kek.py: `_decode_key`, `_run` and `main`.
use Prim.Native.String.{count}
use morai_trading_dashboard.Crypto.Rotation.{
  rotate_kek-wrong_key, opens, rotate_kek-keeps, unwrapped,
}
use morai_trading_dashboard.Crypto.{data_key_leb, rotate_kek}
use morai_trading_dashboard.Settings.{exactly_32}
use morai_trading_dashboard.Prelude.{
  Bool-cases, ◌∙◌, false, ap, sym, not, arith, inl, any, inr, Option-cases, sorted, map, length, ok,
  ◌≡◌, ℕ, String, Option, none, some, if◌then◌else◌, ◌==◌, nat_eq, text_eq,
}
use morai_trading_dashboard.Outside.{Decrypts, Outside}
use morai_trading_dashboard.Db.{Bytes}
use morai_trading_dashboard.Db.Session.{
  continue_with-ok, Session, open_session, Action, ◌>>=◌, ◌>>◌, pure, commit,
}

-- How the script ends: with exit code 2 and nothing done, or after re-wrapping a number of keys.
pub data Exit : Type 0 where
  usage_error : Exit
  rewrapped : ℕ → Exit

-- `not args.old_key`: an empty text counts as missing.
abbrev given : Option String → Option String
given none = none
given (some raw) = if raw == "" then none else some raw

abbrev decode_key : (String → Option Bytes) → Option String → Option Bytes
decode_key b64decode none = none
decode_key b64decode (some raw) = exactly_32 (b64decode raw)

abbrev pub argument_key : (String → Option Bytes) → Option String → Option Bytes
argument_key b64decode argument = decode_key b64decode (given argument)

abbrev run : Outside → Bytes → Bytes → Action Exit
run o old_kek new_kek = do
  open_session
  count ← rotate_kek o old_kek new_kek
  commit
  pure (rewrapped count)

abbrev with_keys : Outside → Option Bytes → Option Bytes → Action Exit
with_keys o (some old_kek) (some new_kek) = run o old_kek new_kek
with_keys o old_kek new_kek = pure usage_error

unfoldable pub rotate_main :
    Outside → (String → Option Bytes) → Option String → Option String → Action Exit
rotate_main o b64decode old_key new_key =
    with_keys o (argument_key b64decode old_key) (argument_key b64decode new_key)

argument_key-32 :
    (b64decode : String → Option Bytes) (argument : Option String) (k : Bytes)
    → argument_key b64decode argument ≡ some k
    → count k ≡ 32
argument_key-32 b64decode argument k h = ground (arith, h)

-- A rotation that returns met no row that the old key does not open.
rotate_kek-opens :
    (o : Outside) (old new : Bytes) (s t : Session) (n : ℕ)
    → rotate_kek o old new s ≡ (ok n, t)
    → any (λ r. not (opens o old r)) (sorted data_key_leb s.db.user_data_keys) ≡ false
rotate_kek-opens o old new s t n e =
    elim (Bool-cases (any (λ r. not (opens o old r)) (sorted data_key_leb s.db.user_data_keys))) [
      | inl shut ↦ ground (arith, e, (rotate_kek-wrong_key o old new s shut).0)
      | inr h ↦ h
    ]

run-rewraps :
    (o : Outside)
    → Decrypts o
    → (old new : Bytes) (s t : Session) (n : ℕ) → run o old new s ≡ (ok (rewrapped n), t)
    → (n ≡ length t.committed.user_data_keys)
      × (map (unwrapped o new) t.committed.user_data_keys
          ≡ map (unwrapped o old) (sorted data_key_leb s.committed.user_data_keys))
run-rewraps o law old new s t n e =
    let opened = (open_session s).1 in
    let (count, r, rotated, rest) =
      continue_with-ok (λ count. (commit >> pure (rewrapped count))) (rotate_kek o old new opened)
        (rewrapped n) t e in
    let (counts, keeps) =
      rotate_kek-keeps o law old new opened (rotate_kek-opens o old new opened r count rotated) in
    let same =
      ap (λ p. p.1.db.user_data_keys) rotated ∙ ap (λ p. p.1.committed.user_data_keys) rest in
    (
      ground (arith, rest, rotated, counts, ap length same),
      ap (map (unwrapped o new)) (sym same) ∙ keeps,
    )

-- Where decryption undoes encryption, a run that re-wraps had two keys of 32 bytes, and has committed for
-- each row a key that the new one opens, with the user, version and data key that the old one gave; its
-- number is that of the rows.
pub rotate_main-rewraps :
    (o : Outside)
    → Decrypts o
    → (b64decode : String → Option Bytes) (old_key new_key : Option String) (s t : Session) (n : ℕ)
    → rotate_main o b64decode old_key new_key s ≡ (ok (rewrapped n), t)
    → (old : Bytes) × (new : Bytes) × (argument_key b64decode old_key ≡ some old)
      × (argument_key b64decode new_key ≡ some new)
      × (count old ≡ 32)
      × (count new ≡ 32)
      × (n ≡ length t.committed.user_data_keys)
      × (map (unwrapped o new) t.committed.user_data_keys
          ≡ map (unwrapped o old) (sorted data_key_leb s.committed.user_data_keys))
unfolding rotate_main
rotate_main-rewraps o law b64decode old_key new_key s t n e =
    elim (Option-cases (argument_key b64decode old_key)) [
      | inl a ↦ ground (arith, e, a)
      | inr (old, a) ↦ elim (Option-cases (argument_key b64decode new_key)) [
        | inl b ↦ ground (arith, e, a, b)
        | inr (new, b) ↦
            let (counts, keys) = run-rewraps o law old new s t n (
              sym (
                ap (λ k. with_keys o k (argument_key b64decode new_key) s) a
                ∙ ap (λ k. with_keys o (some old) k s) b)
              ∙ e) in
            (
              old,
              new,
              a,
              b,
              argument_key-32 b64decode old_key old a,
              argument_key-32 b64decode new_key new b,
              counts,
              keys,
            )
      ]
    ]
