-- ===== src/Python.antt =====
-- src/lib/python_api.cc and the validator of src/lib/packet_validator.cc that calls it. The CPython
-- API is a parameter: its functions on a state of the interpreter, with objects as numbers and a null
-- pointer as `none`. What `std::filesystem::path` says of a file name is an argument.
pub mod Counts
use packet_replay.Base.{
  ℕ, Bool, true, false, ◌++◌, Option, none, some, Bytes, Result, ok, err, fault, runtime_error,
  bytes_eq, codes, ◌==◌, if◌then◌else◌,
}
use packet_replay.Stream.{is_nil}

pub record Python (S : Type 0) : Type 0 where
  pub initialize : S → S
  pub finalize : S → S
  pub run_simple_string : Bytes → S → S
  pub print_error : S → S
  pub unicode_from_string : Bytes → S → Option ℕ × S
  pub import_module : Option ℕ → S → Option ℕ × S
  pub get_attr_string : ℕ → Bytes → S → Option ℕ × S
  pub build_value : Bytes → Bytes → S → Option ℕ × S
  pub call_object : Option ℕ → ℕ → S → Option ℕ × S
  pub is_bool : ℕ → Bool
  pub py_true : ℕ
  pub decref : ℕ → S → Result S

-- `std::filesystem::path`
pub record FilePath : Type 0 where
  pub parent_path : Bytes
  pub stem : Bytes
  pub extension : Bytes

pub record PythonCall : Type 0 where
  pub py_func : Option ℕ
  pub func_name : Bytes

-- The text that adds the directory of the script to the path of the interpreter.
unfoldable pub sys_path_cmd : FilePath → Bytes
sys_path_cmd path =
    codes "sys.path.append(\""
    ++ ((if is_nil path.parent_path then codes "." else path.parent_path) ++ codes "\")")

module _ {S : Type 0} (python : Python S) where
  -- `Py_DECREF`, which follows the pointer.
  unfoldable pub release : Option ℕ → S → Result S
  release none s = err fault
  release (some o) s = python.decref o s

  -- `PythonApi::getInstance`: whether there is an instance.
  unfoldable pub get_instance : Bool → S → Bool × S
  get_instance started s = if started then (true, s) else (true, python.initialize s)

  -- `~PythonApi`
  unfoldable pub destroy_api : S → S
  destroy_api s = python.finalize s

  -- The end of the constructor: the module and its name are released.
  unfoldable pub with_func : Bytes → Option ℕ → ℕ → Option ℕ × S → Result PythonCall × S
  unfolding release
  with_func func_name name mod_object (func, s) = elim (python.decref mod_object s) [
    | err e ↦ (err e, s)
    | ok t ↦ elim (release name t) [
      | err e ↦ (err e, t)
      | ok u ↦ (ok (record { py_func = func; func_name = func_name }), u)
    ]
  ]

  unfoldable pub with_module : Bytes → Option ℕ → Option ℕ × S → Result PythonCall × S
  with_module func_name name (none, s) = (err runtime_error, python.print_error s)
  with_module func_name name (some mod_object, s) =
      with_func func_name name mod_object (python.get_attr_string mod_object func_name s)

  unfoldable pub with_name : Bytes → Option ℕ × S → Result PythonCall × S
  with_name func_name (name, s) = with_module func_name name (python.import_module name s)

  -- The two lines that are run first.
  abbrev pub set_path : FilePath → S → S
  set_path path s =
      python.run_simple_string (sys_path_cmd path) (python.run_simple_string (codes "import sys") s)

  -- `PythonCall(script_file, func_name)`
  unfoldable pub new_call : FilePath → Bytes → S → Result PythonCall × S
  new_call path func_name s =
      if bytes_eq path.extension (codes ".py")
      then with_name func_name (python.unicode_from_string path.stem (set_path path s))
      else (err runtime_error, set_path path s)

  -- `~PythonCall`
  unfoldable pub destroy_call : PythonCall → S → Result S
  destroy_call call s = elim call.py_func [ none ↦ ok s | some f ↦ python.decref f s ]

  -- The end of `validate`, when the result is a `bool`.
  unfoldable pub verdict : ℕ → ℕ → S → Result Bool × S
  verdict args result s = elim (python.decref args s) [
    | err e ↦ (err e, s)
    | ok t ↦ elim (python.decref result t) [
      | err e ↦ (err e, t)
      | ok u ↦ (ok (result == python.py_true), u)
    ]
  ]

  -- `validate` behind the call of the function.
  unfoldable pub returned : ℕ → ℕ → S → Result Bool × S
  returned args result s = elim (python.decref args s) [
    | err e ↦ (err e, s)
    | ok t ↦ (if python.is_bool result then verdict args result t else (err runtime_error, t))
  ]

  -- `validate` with what the function has returned, and with its arguments.
  unfoldable pub after_call : ℕ → Option ℕ × S → Result Bool × S
  after_call args (none, s) = (err runtime_error, python.print_error s)
  after_call args (some result, s) = returned args result s

  unfoldable pub after_build : PythonCall → Option ℕ × S → Result Bool × S
  after_build call (none, s) = (err runtime_error, python.print_error s)
  after_build call (some args, s) = after_call args (python.call_object call.py_func args s)

  -- `ValidatePythonCall::validate`
  unfoldable pub validate_call : PythonCall → Bytes → Bytes → S → Result Bool × S
  validate_call call expected actual s = after_build call (python.build_value expected actual s)

  -- `PythonPacketValidator(python_file, python_func)`
  unfoldable pub new_python_validator : Bool → FilePath → Bytes → S → Result PythonCall × S
  unfolding get_instance
  new_python_validator started path func s = new_call path func (get_instance started s).1

  -- `~PythonPacketValidator` and `PythonPacketValidator::validate` pass on to the call.
  unfoldable pub destroy_python_validator : PythonCall → S → Result S
  destroy_python_validator call s = destroy_call call s

  unfoldable pub python_validate : PythonCall → Bytes → Bytes → S → Result Bool × S
  python_validate call expected actual s = validate_call call expected actual s
