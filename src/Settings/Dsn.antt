-- ===== src/Settings/Dsn.antt =====
-- The connection strings (src/morai/settings.py). SQLAlchemy's `URL` is a parameter.
use text.Mathlib.TextLemmas.{nil-append, cons-append}
use mathlib.Core.Option
use morai_trading_dashboard.Settings.{configured, rejected, Configured, Settings}
use Prim.Native.Char.{code}
use morai_trading_dashboard.Prelude.{
  refl, ◌≡◌, arith, ◌≡◌, ◌<>◌, String, Option, none, some, if◌then◌else◌, ◌==◌, nat_eq, text_eq,
}

-- `text.replace(old, new, 1)`
strip_prefix : String → String → Option String
strip_prefix String.[] s = some s
strip_prefix (String.◌∷◌ c p) String.[] = none
strip_prefix (String.◌∷◌ c p) (String.◌∷◌ d s) =
    let rest = strip_prefix p s in if code c == code d then rest else none

abbrev or_else {ℓ} : {A : Type ℓ} → Option A → A → A
or_else none a = a
or_else (some b) a = b

replace_first : String → String → String → String
unfolding strip_prefix
replace_first old new String.[] =
    or_else (Option.map (λ rest. new <> rest) (strip_prefix old String.[])) String.[]
replace_first old new (String.◌∷◌ c s) =
    let later = replace_first old new s in
    or_else (Option.map (λ rest. new <> rest) (strip_prefix old (String.◌∷◌ c s)))
      (String.◌∷◌ c later)

unfoldable pub async_dsn : Settings → String
unfolding replace_first
async_dsn s = replace_first "postgresql://" "postgresql+asyncpg://" s.database_url

abbrev pub sync_dsn : Settings → String
sync_dsn s = s.database_url

-- `make_url`, `URL.set` of a driver, and of a user name and password, and `URL.render_as_string`.
pub record Urls : Type 1 where
  pub Url : Type 0
  pub make_url : String → Url
  pub set_drivername : String → Url → Url
  pub set_login : String → String → Url → Url
  pub render : Url → String

abbrev unset_password : String → String
unset_password connection =
    "Configuration rejected. `morai_app_db_password` is required to build the web process's "
    <> connection
    <> " connection, and is withheld deliberately even when present -- values are never rendered (NN-34)."

abbrev async_dsn_for : Urls → String → Option String → Configured String
async_dsn_for u database_url none = rejected (unset_password "database")
async_dsn_for u database_url (some password) = configured (
    u.render (
      u.set_login "morai_app" password
        (u.set_drivername "postgresql+asyncpg" (u.make_url database_url))))

abbrev sync_dsn_for : Urls → String → Option String → Configured String
sync_dsn_for u database_url none = rejected (unset_password "deferral")
sync_dsn_for u database_url (some password) =
    configured (u.render (u.set_login "morai_app" password (u.make_url database_url)))

unfoldable pub app_async_dsn : Urls → Settings → Configured String
app_async_dsn u s = async_dsn_for u s.database_url s.morai_app_db_password

unfoldable pub app_sync_dsn : Urls → Settings → Configured String
app_sync_dsn u s = sync_dsn_for u s.database_url s.morai_app_db_password

strip_prefix-append : (p rest : String) → strip_prefix p (p <> rest) ≡ some rest
unfolding strip_prefix
strip_prefix-append String.[] rest = rw nil-append refl
strip_prefix-append (String.◌∷◌ c p) rest =
    rw cons-append (ground (arith, strip_prefix-append p rest))

replace_first-prefix :
    (old new s rest : String)
    → strip_prefix old s ≡ some rest
    → replace_first old new s ≡ new <> rest
unfolding replace_first
replace_first-prefix old new String.[] rest h = rw h refl
replace_first-prefix old new (String.◌∷◌ c s) rest h = rw h refl

-- The URL of a database is given to asyncpg with its scheme changed, and the rest as it is.
pub async_dsn-scheme :
    (s : Settings) (rest : String)
    → s.database_url ≡ "postgresql://" <> rest
    → async_dsn s ≡ "postgresql+asyncpg://" <> rest
unfolding async_dsn
async_dsn-scheme s rest h =
    replace_first-prefix "postgresql://" "postgresql+asyncpg://" s.database_url rest
      (rw h (strip_prefix-append "postgresql://" rest))
