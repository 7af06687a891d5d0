-- ===== src/Case.antt =====
-- A test case of tools/sos_runner.py: one dictionary of `TEST_CASES`.
use sawos.Prelude.{Bool, false, List, [], Option, none}
use sawos.Prelude.Int.{ℤ}
use sawos.Text.{Text}
use sawos.Arch.{Tier}

-- `expect_out`: nothing is asserted, one text, or a list of them.
pub data Expected : Type 0 where
  anything : Expected
  one_text : Text → Expected
  texts : List Text → Expected

-- A key that a case may leave out is an `Option`, an empty list or `false`, as `case.get` reads it.
pub record Case : Type 0 where
  pub name : Text
  pub src : Text
  pub asm : Option Text
  pub csrc : Option Text
  pub root_pkg : Option Text
  pub children : List Text
  pub pool : Bool
  pub device : Bool
  pub expect_out : Expected
  pub expect_clean_exit : Bool
  pub expect_status : Option ℤ
  pub stdin : Option Text
  pub arches : Option (List Text)
  pub tier : Option Tier
  pub tier_reason : Text
  pub strip_kernel_lines : Bool
  pub overlapping_matches : Bool

-- A case with the keys that every case has.
abbrev pub plain_case : Text → Text → Expected → Bool → Case
plain_case name src expect_out expect_clean_exit = record {
  name = name;
  src = src;
  asm = none;
  csrc = none;
  root_pkg = none;
  children = [];
  pool = false;
  device = false;
  expect_out = expect_out;
  expect_clean_exit = expect_clean_exit;
  expect_status = none;
  stdin = none;
  arches = none;
  tier = none;
  tier_reason = [];
  strip_kernel_lines = false;
  overlapping_matches = false;
}
