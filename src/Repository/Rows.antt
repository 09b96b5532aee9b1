-- ===== src/Repository/Rows.antt =====
-- src/adapters/outbound/sqlite_backend_repo.rs: loading the rows of the table `backends`.
use edgeproxy.Prelude.{
  ◌%◌, ◌^◌, ◌≡◌, Bool, true, false, not, List, [], ◌∷◌, Option, none, some, if◌then◌else◌, nat_beq,
  retain, Elem, here, there, arith, inc64, ap, sym, ◌∙◌,
}
use edgeproxy.Database.{null, integer, text, get_text, get_integer, BackendRow}
use edgeproxy.Domain.{Backend}
use edgeproxy.Domain.Region.{from_str}
use edgeproxy.Repository.{SqliteBackendRepository}

infixl 5 ◌>>=◌
abbrev ◌>>=◌ {ℓ κ} : {A : Type ℓ} {B : Type κ} → Option A → (A → Option B) → Option B
none >>= k = none
some a >>= k = k a

-- `as u16`, `as u8` and `as u32` keep the low bits.
unfoldable pub row_to_backend : BackendRow → Option Backend
row_to_backend row = do
  id ← get_text row.id
  app ← get_text row.app
  region ← get_text row.region
  country ← get_text row.country
  wg_ip ← get_text row.wg_ip
  port ← get_integer row.port
  healthy ← get_integer row.healthy
  weight ← get_integer row.weight
  soft_limit ← get_integer row.soft_limit
  hard_limit ← get_integer row.hard_limit
  some (record {
    id = id;
    app = app;
    region = from_str region;
    country = country;
    wg_ip = wg_ip;
    port = port % 2 ^ 16;
    healthy = not (nat_beq healthy 0);
    weight = weight % 2 ^ 8;
    soft_limit = soft_limit % 2 ^ 32;
    hard_limit = hard_limit % 2 ^ 32;
  })

-- `WHERE deleted IS NULL OR deleted = 0`.
unfoldable pub is_live : BackendRow → Bool
is_live row = elim row.deleted [ null ↦ true | integer n ↦ nat_beq n 0 | text _ ↦ false ]

-- `collect::<Result<Vec<_>, _>>()`: the first row that fails is the answer.
unfoldable pub collect_rows : List BackendRow → Option (List Backend)
collect_rows [] = some []
collect_rows (row ∷ rows) = do b ← row_to_backend row; bs ← collect_rows rows; some (b ∷ bs)

unfoldable pub load_from_sqlite : List BackendRow → Option (List Backend)
load_from_sqlite rows = collect_rows (retain is_live rows)

-- One round of `start_sync`: a load that fails leaves the backends and the version as they were.
unfoldable pub reload : List BackendRow → SqliteBackendRepository → SqliteBackendRepository
reload rows s = elim (load_from_sqlite rows) [
  | none ↦ s
  | some bs ↦ record { backends = bs; version = inc64 s.version }
]

row_without_country : (row : BackendRow) → row.country ≡ null → row_to_backend row ≡ none
unfolding row_to_backend get_text
row_without_country row e = ground arith

collect_without :
    (rows : List BackendRow) {row : BackendRow}
    → Elem row rows
    → row_to_backend row ≡ none
    → collect_rows rows ≡ none
unfolding collect_rows
collect_without [] m e = elim m [ ]
collect_without (r ∷ rows) {row} (here _ _ same) e = rw (ap row_to_backend (sym same) ∙ e, ◌>>=◌)
collect_without (r ∷ rows) {row} (there _ _ m) e =
    ground (arith, collect_without rows {row = row} m e)

retain-Elem :
    (rows : List BackendRow) (row : BackendRow)
    → Elem row rows
    → is_live row ≡ true
    → Elem row (retain is_live rows)
retain-Elem [] row m e = elim m [ ]
retain-Elem (r ∷ rows) row (here _ _ same) e =
    rw (ap is_live (sym same) ∙ e) (here r (retain is_live rows) same)
retain-Elem (r ∷ rows) row (there _ _ m) e = go (is_live r) (retain-Elem rows row m e)
  where
    go :
        (t : Bool)
        → Elem row (retain is_live rows)
        → Elem row (if t then r ∷ retain is_live rows else retain is_live rows)
    go true ih = there r (retain is_live rows) ih
    go false ih = ih

-- One row that is not deleted and has no country makes the whole load fail: the repository keeps
-- the backends and the version that it had, whatever the other rows hold.
pub reload_without_country :
    (rows : List BackendRow) (row : BackendRow) (s : SqliteBackendRepository)
    → Elem row rows
    → is_live row ≡ true
    → row.country ≡ null
    → reload rows s ≡ s
unfolding reload load_from_sqlite
reload_without_country rows row s m live e = rw (
  collect_without (retain is_live rows) (retain-Elem rows row m live) (row_without_country row e),
  reload,
)
