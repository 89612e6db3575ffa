-- ===== src/Adb.antt =====
-- relay-rust/src/adb.rs and transport.rs: the commands that run adb, and what they answer. What a command
-- answers may depend on all commands before it; its output is the text that `from_utf8_lossy` makes.
use Prim.Native.Char.{code}
use Prim.Native.String.{String}
use gnirehtet.Base.{
  ℕ, Bool, true, false, not, List, [], ◌∷◌, Option, none, some, ltb, if◌then◌else◌,
}
use gnirehtet.Text
use gnirehtet.Text.Numbers
use gnirehtet.Text.{same_text, starts_with}
use gnirehtet.SerialRegistry.{PendingEntry}

-- The code points of a text.
abbrev pub codes : String → List ℕ
codes String.[] = []
codes (String.◌∷◌ c s) = code c ∷ codes s

-- The arguments of a command.
abbrev pub Args : Type 0
Args = List (List ℕ)

-- A command that exits, with success or not, and its output; or one that does not start.
pub data Answer : Type 0 where
  exited : Bool → List ℕ → Answer
  not_started : Answer

-- `ProcessStatusError` and `ProcessIoError`, with the command, and an error of I/O.
pub data CommandExecutionError : Type 0 where
  process_status : Args → CommandExecutionError
  process_io : Args → CommandExecutionError
  other_io : CommandExecutionError

pub data Result (A : Type 0) : Type 0 where
  ok : A → Result A
  err : CommandExecutionError → Result A

-- The arguments of every command that was run, the last first, and the serials that wait for a connection.
pub record World : Type 0 where
  pub log : List Args
  pub registry : List PendingEntry

abbrev pub Run : Type 0 → Type 0
Run A = World → World × Result A

infixl 5 ◌>>=◌ ◌>>◌
unfoldable pub ◌>>=◌ : {A B : Type 0} → Run A → (A → Run B) → Run B
◌>>=◌ m f w = elim (m w).1 [ ok a ↦ f a (m w).0 | err e ↦ ((m w).0, err e) ]

unfoldable pub ◌>>◌ : {A B : Type 0} → Run A → Run B → Run B
m >> k = m >>= λ _. k

unfoldable pub give : {A : Type 0} → A → Run A
give a w = (w, ok a)

unfoldable pub raise : {A : Type 0} → CommandExecutionError → Run A
raise e w = (w, err e)

-- `let _ =`: the error is dropped.
unfoldable pub ignoring : {A : Type 0} → Run A → Run (Unit {0})
ignoring m w = ((m w).0, ok tt)

unfoldable pub create_adb_args : Option (List ℕ) → Args → Args
create_adb_args none args = args
create_adb_args (some serial) args = codes "-s" ∷ serial ∷ args

abbrev pub required_apk_version_code : List ℕ
required_apk_version_code = codes "2603"

-- The code of the first line that begins with `versionCode=`, up to a blank.
unfoldable pub code_of : List (List ℕ) → Option (List ℕ)
code_of [] = none
code_of (word ∷ _) = some (Text.skip 12 word)

unfoldable pub version_code : List (List ℕ) → Option (List ℕ)
unfolding code_of
version_code [] = none
version_code (line ∷ ls) =
    let rest = version_code ls in
    if starts_with (codes "versionCode=") (Text.trim line)
    then code_of (Text.split_whitespace (Text.trim line))
    else rest

-- A package that is not there, or has no version, is installed.
unfoldable pub is_outdated : Option (List ℕ) → Bool
is_outdated none = true
is_outdated (some code) = not (same_text code required_apk_version_code)

module _ (adb : List Args → Args → Answer) where
  -- One command.
  unfoldable pub run : Args → Run Answer
  run args w = (record w { log = args ∷ w.log }, ok (adb w.log args))

  unfoldable pub checked : Args → Answer → Run (Unit {0})
  checked args (exited true out) = give tt
  checked args (exited false out) = raise (process_status args)
  checked args not_started = raise (process_io args)

  unfoldable pub exec_adb : Option (List ℕ) → Args → Run (Unit {0})
  unfolding run checked
  exec_adb serial args = run (create_adb_args serial args) >>= checked (create_adb_args serial args)

  unfoldable pub outdated_by : Args → Answer → Run Bool
  unfolding is_outdated version_code
  outdated_by args (exited true out) = give (is_outdated (version_code (Text.lines out)))
  outdated_by args (exited false out) = raise (process_status args)
  outdated_by args not_started = raise (process_io args)

  unfoldable pub must_install_client : Option (List ℕ) → Run Bool
  unfolding run outdated_by
  must_install_client serial =
      let args = create_adb_args serial (
        codes "shell"
        ∷ codes "dumpsys"
        ∷ codes "package"
        ∷ codes "com.genymobile.gnirehtet"
        ∷ []) in
      run args >>= outdated_by args

  unfoldable pub sdk_of : Answer → Option ℕ
  sdk_of (exited true out) = Numbers.parse_unsigned 32 (Text.trim out)
  sdk_of (exited false out) = none
  sdk_of not_started = none

  unfoldable pub query_device_sdk : Option (List ℕ) → Run (Option ℕ)
  unfolding run sdk_of
  query_device_sdk serial =
      run (
        create_adb_args serial
          (codes "shell" ∷ codes "getprop" ∷ codes "ro.build.version.sdk" ∷ []))
      >>= λ answer. give (sdk_of answer)

pub data TransportMode : Type 0 where
  reverse forward : TransportMode

pub data TransportPreference : Type 0 where
  auto prefer_reverse prefer_forward : TransportPreference

unfoldable pub parse : List ℕ → Option TransportPreference
parse s =
    if same_text s (codes "auto")
    then some auto
    else if same_text s (codes "reverse")
    then some prefer_reverse
    else if same_text s (codes "forward")
    then some prefer_forward
    else none

-- The direction by the level of the device's SDK.
unfoldable pub mode_of : Option ℕ → TransportMode
mode_of none = reverse
mode_of (some sdk) = if ltb sdk 21 then forward else reverse

module _ (adb : List Args → Args → Answer) where
  unfoldable pub resolve : Option (List ℕ) → TransportPreference → Run TransportMode
  unfolding mode_of
  resolve serial prefer_reverse = give reverse
  resolve serial prefer_forward = give forward
  resolve serial auto = query_device_sdk adb serial >>= λ sdk. give (mode_of sdk)
