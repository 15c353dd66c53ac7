-- ===== src/Examples/Scopes.antt =====
-- Runs of internal/core/scope on concrete inputs.
use open_delo.Prelude.{◌≡◌, refl, true, false, arith, eq_iff}
use open_delo.Platform.AppError.{ok}
use open_delo.Prelude.Sorting.{insert_string, sort_strings}
use open_delo.Scope.Dimensions.{
  Scope, valid_environment, level_rank, valid_level, dimension_checks, check_dimensions, validate,
  is_valid, mentions_wild, has_wildcard, value_of, agrees_on, same_resource, same_environment,
  same_names, covers, covers_ignoring_window,
}
use open_delo.Scope.Resources.{IsFilled}
use open_delo.Scope.Covering.{Within, covers-Within}
use open_delo.Scope.Order.{covers_ignoring_window-window, only, covers_other_key}
use open_delo.Scope.Resolver.{
  unmarked, check_input, ceiling_of, normalize_field, is_injection, injection_fields, converge,
  resolve,
}
use open_delo.Scope.Convergence.{IsNarrowest, resolve-IsNarrowest}
use open_delo.Examples.Samples.{ascii, read_scope, read_input, read_result}

-- A shorter window within the same scope.
abbrev brief : Scope
brief = record read_scope { not_before = 200; expires_at = 300 }

brief_covered : covers read_scope brief ≡ true
unfolding covers same_names same_resource same_environment agrees_on value_of has_wildcard
    mentions_wild level_rank is_valid validate check_dimensions dimension_checks valid_environment
    valid_level
brief_covered = refl

briefer : Scope
briefer = record read_scope { not_before = 210; expires_at = 220 }

briefer_covered : covers brief briefer ≡ true
unfolding covers same_names same_resource same_environment agrees_on value_of has_wildcard
    mentions_wild level_rank is_valid validate check_dimensions dimension_checks valid_environment
    valid_level briefer
briefer_covered = refl

read_IsFilled : IsFilled read_scope.resource
read_IsFilled = ((λ e. ground (arith, eq_iff "primary" "")), tt)

covers-Within_example : Within read_scope brief
covers-Within_example = covers-Within read_scope brief (tt, tt) (tt, tt) read_IsFilled brief_covered

read_is_valid : is_valid read_scope ≡ true
unfolding is_valid validate check_dimensions dimension_checks valid_environment valid_level
    level_rank
read_is_valid = refl

read_no_wildcard : has_wildcard read_scope.resource ≡ false
unfolding has_wildcard mentions_wild
read_no_wildcard = refl

covers_ignoring_window-window_example :
    covers_ignoring_window read_scope (record brief { not_before = 400; expires_at = 500 })
    ≡ covers_ignoring_window read_scope brief
covers_ignoring_window-window_example = covers_ignoring_window-window read_scope brief 400 500

unnamed_calendar : is_valid (only read_scope "calendar" "") ≡ true
unfolding is_valid validate check_dimensions dimension_checks valid_environment valid_level
    level_rank
unnamed_calendar = refl

plain_mailbox : mentions_wild "all-hands" ≡ false
unfolding mentions_wild
plain_mailbox = refl

covers_other_key_example :
    (covers (only read_scope "calendar" "") (only read_scope "mailbox" "all-hands") ≡ true)
    × (value_of (only read_scope "calendar" "").resource "mailbox" ≡ "")
covers_other_key_example =
    covers_other_key read_scope "calendar" "mailbox" "all-hands" unnamed_calendar
      (λ e. ground (arith, eq_iff "mailbox" "calendar")) plain_mailbox

-- A read at time 100, its fields `note` and `allScopes` outside the contract.
read_resolved : resolve ascii 100 read_input ≡ ok read_result
unfolding resolve check_input unmarked ceiling_of insert_string sort_strings normalize_field
    is_injection injection_fields converge validate check_dimensions dimension_checks
    valid_environment valid_level level_rank same_environment
read_resolved = refl

resolve-IsNarrowest_example : IsNarrowest ascii 100 read_input read_result.scope
resolve-IsNarrowest_example = resolve-IsNarrowest ascii 100 read_input read_result read_resolved
