-- ===== src/Main.antt =====
-- src/main.c: the options, and how they are handed on to `parse_file`. `getopt_long` and `strtoul` are
-- the platform's. A call of the first that finds an option is an `Opt`; the options are given as the list
-- of these calls, and the operands as the arguments from `optind` on. The second is a parameter: the
-- number at the start of a string, and what follows it.
pub mod Maxsize
pub mod Options
pub mod Preference
pub mod Runs
pub mod Message
use Prim.Native.Nat.{bit_or}
use tnef.Prelude.{
  ℕ, ◌+◌, ◌%◌, ◌^◌, Bool, true, false, not, ◌||◌, ◌&&◌, List, [], ◌∷◌, Option, none, some, map,
  length, ltb, leb, ◌==◌, if◌then◌else◌, ascii,
}
use tnef.Outcome.{Halt, Result, ok, halt, fault, exit, abort, stop_if, ◌>>=◌, ◌>>◌}
use tnef.Env.{
  Env, flag_on, verbose, dbg_out, list, paths, overwrite, confirm, numbered, savebody, listmime,
  checksum_ok, encode_ok, cruft_ok, unix_paths, absolute_paths,
}
use tnef.Util.{Bytes}
use tnef.Path.{Str}
use tnef.File.{World, str_eq, find_file}
use tnef.Tnef.Save.{parse_file, all_pref, every_body}

-- What `getopt_long` returns, the name at `option_index`, and `optarg`.
pub record Opt : Type 0 where
  pub val : ℕ
  pub name : Str
  pub optarg : Option Str

-- The variables of `main` that `parse_cmdline` sets.
pub record Cmdline : Type 0 where
  pub in_file : Option Str
  pub out_dir : Option Str
  pub body_file : Option Str
  pub body_pref : Str
  pub max_size : ℕ
  pub flags : ℕ

unfoldable pub to_lower : ℕ → ℕ
to_lower c = if leb b'A' c && leb c b'Z' then c + 32 else c

abbrev pub is_body : ℕ → Bool
is_body c = c == b'r' || c == b'h' || c == b't'

unfoldable pub all_bodies : Str → Bool
all_bodies [] = true
all_bodies (c ∷ pref) = is_body c && all_bodies pref

unfoldable pub validate_body_pref : Option Str → Result Str
validate_body_pref none = halt abort
validate_body_pref (some optarg) =
    let pref = map to_lower optarg in
    if length optarg == 0 || ltb 3 (length optarg)
    then halt abort
    else if str_eq pref all_pref || all_bodies pref
    then ok pref
    else halt abort

-- What an option makes `parse_cmdline` do.
pub data Action : Type 0 where
  raise : ℕ → Action
  save_body set_body_pref set_in_file set_out_dir set_max_size : Action
  leave : Halt → Action

-- `case 0`: the long options without a letter, by their names.
unfoldable pub long_action : Str → Action
long_action name =
    if str_eq name (ascii "debug")
    then raise dbg_out
    else if str_eq name (ascii "use-paths")
    then raise paths
    else if str_eq name (ascii "unix-paths")
    then raise unix_paths
    else if str_eq name (ascii "allow-absolute-paths")
    then raise absolute_paths
    else if str_eq name (ascii "overwrite")
    then raise overwrite
    else if str_eq name (ascii "number-backups")
    then raise numbered
    else if str_eq name (ascii "save-body")
    then save_body
    else if str_eq name (ascii "body-pref")
    then set_body_pref
    else if str_eq name (ascii "list-with-mime-types")
    then raise (bit_or list listmime)
    else if str_eq name (ascii "ignore-encode")
    then raise encode_ok
    else if str_eq name (ascii "ignore-cruft")
    then raise cruft_ok
    else leave abort

-- The `switch`.
unfoldable pub action : Opt → Action
action o =
    if o.val == 0
    then long_action o.name
    else if o.val == b'V'
    then leave (exit 0)
    else if o.val == b'v'
    then raise (bit_or verbose listmime)
    else if o.val == b'f'
    then set_in_file
    else if o.val == b'C'
    then set_out_dir
    else if o.val == b'x'
    then set_max_size
    else if o.val == b'h'
    then leave (exit 0)
    else if o.val == b't'
    then raise list
    else if o.val == b'w'
    then raise confirm
    else if o.val == b'K'
    then raise checksum_ok
    else if o.val == b'?'
    then leave (exit 1)
    else leave abort

abbrev pub or_message : Option Str → Str
or_message none = ascii "message"
or_message (some optarg) = optarg

-- "-" is standard input; `strcmp` reads its argument.
unfoldable pub input_of : Option Str → Result (Option Str)
input_of none = halt fault
input_of (some optarg) = if str_eq optarg (ascii "-") then ok none else ok (some optarg)

abbrev pub opened : Option Bytes → Result (Bool × Bytes)
opened none = halt (exit 1)
opened (some input) = ok (false, input)

abbrev pub defaults : Cmdline
defaults = record {
  in_file = none;
  out_dir = none;
  body_file = none;
  body_pref = every_body;
  max_size = 0;
  flags = 0;
}

-- The first operand is the input; the others are only printed.
abbrev pub take_operands : Cmdline → List Str → Cmdline
take_operands c [] = c
take_operands c (operand ∷ operands) = record c { in_file = some operand }

abbrev pub or_null : Option Str → Str
or_null none = []
or_null (some s) = s

-- `fopen (in_file, "rb")`, of a file that is there, or standard input: the bytes that the stream gives
-- as long as nothing is written to the file.
unfoldable pub open_input : World → Bytes → Option Str → Result (Bool × Bytes)
open_input w stdin none = ok (true, stdin)
open_input w stdin (some in_file) = opened (find_file in_file w.files)

abbrev pub env_of : (ℕ → Bool) → Cmdline → Env
env_of malloc c = record { alloc_limit = c.max_size; g_flags = c.flags; malloc = malloc }

module _ (strtoul : Str → ℕ × Str) where
  -- A number with bit 31 is negative as an `int32`.
  unfoldable pub size_of : Option Str → Result ℕ
  size_of none = halt fault
  size_of (some optarg) =
      let (size, end_ptr) = strtoul optarg in
      if not (length end_ptr == 0)
      then halt (exit 255)
      else if leb (2 ^ 31) (size % 2 ^ 32)
      then ok 0
      else ok size

  unfoldable pub act : Cmdline → Option Str → Action → Result Cmdline
  act c optarg (raise mask) = ok (record c { flags = bit_or c.flags mask })
  act c optarg save_body =
      ok (record c { flags = bit_or c.flags savebody; body_file = some (or_message optarg) })
  act c optarg set_body_pref = do
    pref ← validate_body_pref optarg
    ok (record c { body_pref = pref })
  act c optarg set_in_file = do in_file ← input_of optarg; ok (record c { in_file = in_file })
  act c optarg set_out_dir = ok (record c { out_dir = optarg })
  act c optarg set_max_size = do size ← size_of optarg; ok (record c { max_size = size })
  act c optarg (leave h) = halt h

  unfoldable pub take_options : Cmdline → List Opt → Result Cmdline
  take_options c [] = ok c
  take_options c (o ∷ opts) = do c' ← act c o.optarg (action o); take_options c' opts

  unfoldable pub parse_cmdline : List Opt → List Str → Result Cmdline
  parse_cmdline opts operands = do c ← take_options defaults opts; ok (take_operands c operands)

  -- The name of the body file is NULL only where it is not used. What is read of the input is what the
  -- file held when it was opened: the files are written while the input is read, and a run in which
  -- --overwrite makes one of them the input file itself is not modelled.
  unfoldable pub main :
      (ℕ → Bool) → World → Bytes → List Opt → List Str → Result (Option (ℕ × World))
  main malloc w stdin opts operands = do
    c ← parse_cmdline opts operands
    let env : Env = env_of malloc c
    (from_stdin, input) ← open_input w stdin c.in_file
    stop_if (from_stdin && flag_on env confirm) (exit 1)
    parse_file env from_stdin input c.out_dir (or_null c.body_file) c.body_pref w
