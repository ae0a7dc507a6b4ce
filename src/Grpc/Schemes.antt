-- ===== src/Grpc/Schemes.antt =====
-- grpc/resolver.go: the table of discoveries by scheme. A discovery is a number, `config_key` gives its
-- configuration's key, and whether closing one fails comes with a release.
pub mod Numbers
pub mod References
pub mod Others
pub mod Histories
pub mod Failing
use quickgo.Prelude.{
  ℕ, zero, suc, ◌+◌, ◌-◌, ◌==◌, ltb, Bool, true, false, not, ◌&&◌, Option, none, some, List, [],
  ◌∷◌, String, if◌then◌else◌,
}
use quickgo.Prelude.Int.{ℤ, pos, negsuc, ltb_ℤ}
use quickgo.Prelude.Int64.{int_inc, int_dec}
use quickgo.Prelude.Dict.{lookup, insert, ◌is◌}

-- `builder` is the discovery that the builder of the scheme has.
pub record RegisteredResolver : Type 0 where
  pub key : String
  pub sd : Option ℕ
  pub builder : Option ℕ
  pub refs : ℤ

abbrev pub Table : Type 0
Table = List (String × RegisteredResolver)

-- `RegisterResolverAndGet` fails, or gives the discovery that the scheme uses.
pub data Registered : Type 0 where
  different_config : Registered
  uses : Option ℕ → Registered

-- `ReleaseResolver` has nothing to release, lets others use the discovery, closes it, or fails to.
pub data Released : Type 0 where
  ignored still_used : Released
  closed close_failed : ℕ → Released

abbrev pub is_zero : ℤ → Bool
is_zero (pos n) = n == 0
is_zero (negsuc n) = false

unfoldable pub register_found :
    String → String → ℕ → Option RegisteredResolver → Table → Table × Registered
unfolding int_inc
register_found scheme key sd none table = (
  insert scheme (record { key = key; sd = some sd; builder = some sd; refs = pos 1 }) table,
  uses (some sd),
)
register_found scheme key sd (some e) table =
    if ltb_ℤ (pos 0) e.refs && not (e.key is key)
    then (table, different_config)
    else if is_zero e.refs
    then (
      insert scheme (record { key = key; sd = some sd; builder = some sd; refs = int_inc e.refs })
          table,
      uses (some sd),
    )
    else (insert scheme (record e { refs = int_inc e.refs }) table, uses e.sd)

unfoldable pub register_resolver_and_get : (ℕ → String) → String → ℕ → Table → Table × Registered
unfolding register_found
register_resolver_and_get config_key scheme sd table =
    register_found scheme (config_key sd) sd (lookup scheme table) table

abbrev pub is_sd : ℕ → Option ℕ → Bool
is_sd sd none = false
is_sd sd (some other) = other == sd

-- `registered.refs--`
unfoldable pub drop_ref : ℤ → ℤ
unfolding int_dec
drop_ref refs = if ltb_ℤ (pos 0) refs then int_dec refs else refs

-- `registered.refs == 0` after the release: the discovery is closed, if there is one. `e` is the copy of the
-- entry, which has lost the reference.
unfoldable pub close_unused :
    Bool → String → Option ℕ → RegisteredResolver → Table → Table × Released
close_unused fails scheme none e table = (insert scheme e table, ignored)
close_unused fails scheme (some sd) e table =
    if fails
    then (table, close_failed sd)
    else (insert scheme (record e { sd = none; builder = none }) table, closed sd)

unfoldable pub release_found :
    Bool → String → String → ℕ → Option RegisteredResolver → Table → Table × Released
unfolding close_unused drop_ref
release_found fails scheme key sd none table = (table, ignored)
release_found fails scheme key sd (some e) table =
    if not (is_sd sd e.sd) && not (e.key is key)
    then (table, ignored)
    else if is_zero (drop_ref e.refs)
    then close_unused fails scheme e.sd (record e { refs = drop_ref e.refs }) table
    else (insert scheme (record e { refs = drop_ref e.refs }) table, still_used)

unfoldable pub release_resolver : Bool → (ℕ → String) → String → ℕ → Table → Table × Released
unfolding release_found
release_resolver fails config_key scheme sd table =
    release_found fails scheme (config_key sd) sd (lookup scheme table) table

pub data Op : Type 0 where
  registering : String → ℕ → Op
  releasing : Bool → String → ℕ → Op

pub data Result : Type 0 where
  registered_as : String → Registered → Result
  released_as : String → Released → Result

unfoldable pub step : (ℕ → String) → Op → Table → Table × Result
unfolding register_resolver_and_get release_resolver
step config_key (registering scheme sd) table =
    let (table', result) = register_resolver_and_get config_key scheme sd table in
    (table', registered_as scheme result)
step config_key (releasing fails scheme sd) table =
    let (table', result) = release_resolver fails config_key scheme sd table in
    (table', released_as scheme result)

unfoldable pub run : (ℕ → String) → List Op → Table → Table × List Result
unfolding step
run config_key [] table = (table, [])
run config_key (op ∷ ops) table =
    let (table₁, result) = step config_key op table in
    let (table₂, results) = run config_key ops table₁ in (table₂, result ∷ results)
