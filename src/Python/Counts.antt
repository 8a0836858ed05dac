-- ===== src/Python/Counts.antt =====
-- src/lib/python_api.cc: the references that the program holds.
use mathlib.Core.Bool.{true≢false}
use packet_replay.Base.{
  ℕ, suc, ◌+◌, ◌≤◌, ◌≡◌, ◌≢◌, refl, ap, sym, subst, ◌∙◌, Bool, true, false, Option, none, some,
  Bytes, Result, ok, err, fault, runtime_error, bytes_eq, codes, ◌==◌, if◌then◌else◌, arith,
}
use packet_replay.Python.{
  Python, FilePath, PythonCall, release, set_path, with_func, with_module, with_name, new_call,
  destroy_call, verdict, returned, after_call, after_build, validate_call,
}

module _ {S : Type 0} (python : Python S) (owned : ℕ → S → ℕ) where
  abbrev pub mark : ℕ → ℕ → ℕ
  mark o r = if o == r then 1 else 0

  mark_self : (r : ℕ) → mark r r ≡ 1
  mark_self r = ground arith

  -- The program holds one reference more to the object, and as many as before to the others.
  abbrev pub Gives : ℕ → S → S → Type 0
  Gives r s t = (o : ℕ) → owned o t ≡ owned o s + mark o r

  abbrev pub Same : S → S → Type 0
  Same s t = (o : ℕ) → owned o t ≡ owned o s

  -- A function that returns a new reference, or a null pointer.
  abbrev pub IsGiven : S → Option ℕ × S → Type 0
  IsGiven s (none, t) = Same s t
  IsGiven s (some r, t) = Gives r s t

  -- What is documented of the API: which functions return new references, that only a reference
  -- which is held may be released, and that the tuple of arguments is a new object and no `bool`.
  pub record IsCounted : Type 0 where
    pub run_same : (x : Bytes) (s : S) → Same s (python.run_simple_string x s)
    pub print_same : (s : S) → Same s (python.print_error s)
    pub unicode_given : (x : Bytes) (s : S) → IsGiven s (python.unicode_from_string x s)
    pub import_given : (n : Option ℕ) (s : S) → IsGiven s (python.import_module n s)
    pub attr_given : (m : ℕ) (x : Bytes) (s : S) → IsGiven s (python.get_attr_string m x s)
    pub build_given : (x y : Bytes) (s : S) → IsGiven s (python.build_value x y s)
    pub build_new :
        (x y : Bytes) (s t : S) (args : ℕ)
        → python.build_value x y s ≡ (some args, t)
        → (owned args s ≡ 0) × (python.is_bool args ≡ false)
    pub call_given : (f : Option ℕ) (args : ℕ) (s : S) → IsGiven s (python.call_object f args s)
    pub decref_owned :
        (o : ℕ) (s : S) → 1 ≤ owned o s → (t : S) × (python.decref o s ≡ ok t) × Gives o t s
    pub decref_free : (o : ℕ) (s : S) → owned o s ≡ 0 → python.decref o s ≡ err fault

  Gives-self : (r : ℕ) (s t : S) → Gives r s t → owned r t ≡ owned r s + 1
  Gives-self r s t g = ground (arith, g r)

  Gives-other : (r o : ℕ) (s t : S) → Gives r s t → o ≢ r → owned o t ≡ owned o s
  Gives-other r o s t g n = ground (arith, g o)

  module _ (counted : IsCounted) where
    -- The references to the tuple of arguments behind the call of the function.
    args_held :
        (f : Option ℕ) (expected actual : Bytes) (s t u : S) (args result : ℕ)
        → python.build_value expected actual s ≡ (some args, t)
        → python.call_object f args t ≡ (some result, u)
        → python.is_bool result ≡ true
        → owned args u ≡ 1
    args_held f expected actual s t u args result built called is =
        let (fresh, no_bool) = counted.build_new expected actual s t args built in
        let given = subst (IsGiven s) built (counted.build_given expected actual s) in
        let kept = subst (IsGiven t) called (counted.call_given f args t) in
        Gives-other result args t u kept (other no_bool)
        ∙ Gives-self args s t given
        ∙ ap (λ n. n + 1) fresh
      where
        other : python.is_bool args ≡ false → args ≢ result
        other n e = true≢false (sym is ∙ ap python.is_bool (sym e) ∙ n)

    -- When the function of the script returns a `bool`, `validate` releases the tuple of arguments
    -- twice, and its behaviour is undefined: it never returns a verdict.
    pub validate_over_releases :
        (call : PythonCall) (expected actual : Bytes) (s t u : S) (args result : ℕ)
        → python.build_value expected actual s ≡ (some args, t)
        → python.call_object call.py_func args t ≡ (some result, u)
        → python.is_bool result ≡ true
        → (validate_call python call expected actual s).0 ≡ err fault
    unfolding validate_call after_build after_call returned verdict
    validate_over_releases call expected actual s t u args result built called is =
        let one = args_held call.py_func expected actual s t u args result built called is in
        let (v, e, g) = counted.decref_owned args u (omega arith) in
        let none_left = counted.decref_free args v (omega (arith, Gives-self args v u g)) in
        ap (λ x. (after_build python call x).0) built
        ∙ ap (λ x. (after_call python args x).0) called
        ∙ rw (after_call, returned, e, is, verdict, none_left) refl

    -- When the function of the script raises an exception, `validate` throws `runtime_error` and
    -- holds a reference more to the tuple of arguments than before, which nothing releases.
    pub validate_leaks :
        (call : PythonCall) (expected actual : Bytes) (s t u : S) (args : ℕ)
        → python.build_value expected actual s ≡ (some args, t)
        → python.call_object call.py_func args t ≡ (none, u)
        → (validate_call python call expected actual s ≡ (err runtime_error, python.print_error u))
          × (owned args (python.print_error u) ≡ owned args s + 1)
    unfolding validate_call after_build after_call
    validate_leaks call expected actual s t u args built called = (
      ap (after_build python call) built ∙ ap (after_call python args) called,
      counted.print_same u args
          ∙ subst (IsGiven t) called (counted.call_given call.py_func args t) args
          ∙ Gives-self args s t (subst (IsGiven s) built (counted.build_given expected actual s)),
    )

    new_call-found :
        (path : FilePath) (func_name : Bytes) (s t u v : S) (name mod_object : ℕ) (func : Option ℕ)
        → path.extension ≡ codes ".py"
        → python.unicode_from_string path.stem (set_path python path s) ≡ (some name, t)
        → python.import_module (some name) t ≡ (some mod_object, u)
        → python.get_attr_string mod_object func_name u ≡ (func, v)
        → new_call python path func_name s
          ≡ with_func python func_name (some name) mod_object (func, v)
    unfolding new_call with_name with_module packet_replay.Base.compare_bytes
    new_call-found path func_name s t u v name mod_object func py named imported found =
        ap
          (λ x.
            if bytes_eq x (codes ".py")
            then with_name python func_name
                (python.unicode_from_string path.stem (set_path python path s))
            else (err runtime_error, set_path python path s))
          py
        ∙ ap (with_name python func_name) named
        ∙ ap (with_module python func_name (some name)) imported
        ∙ ap (with_func python func_name (some name) mod_object) found

    -- For a script whose name ends in ".py", whose module can be imported and has the function, the
    -- constructor succeeds, and the destructor then leaves as many references to every object as there
    -- were before the constructor.
    pub destroy-new :
        (path : FilePath) (func_name : Bytes) (s t u v : S) (name mod_object func : ℕ)
        → path.extension ≡ codes ".py"
        → python.unicode_from_string path.stem (set_path python path s) ≡ (some name, t)
        → python.import_module (some name) t ≡ (some mod_object, u)
        → python.get_attr_string mod_object func_name u ≡ (some func, v)
        → (w z : S) × (new_call python path func_name s
            ≡ (ok (record { py_func = some func; func_name = func_name }), w))
          × (destroy_call python (record { py_func = some func; func_name = func_name }) w ≡ ok z)
          × Same s z
    unfolding with_func release destroy_call
    destroy-new path func_name s t u v name mod_object func py named imported found =
        let (a, e, f) =
          counted.decref_owned mod_object v
            (omega (arith, total mod_object, mark_self mod_object)) in
        let (b, g, h) =
          counted.decref_owned name a (omega (arith, total name, f name, mark_self name)) in
        let (z, i, j) =
          counted.decref_owned func b (omega (arith, total func, f func, h func, mark_self func)) in
        (
          b,
          z,
          new_call-found path func_name s t u v name mod_object (some func) py named imported found
              ∙ rw (with_func, e, release, g) refl,
          i,
          λ o. omega (arith, total o, f o, h o, j o),
        )
      where
        start : Same s (set_path python path s)
        start o =
            counted.run_same _ (python.run_simple_string (codes "import sys") s) o
            ∙ counted.run_same _ s o

        total : (o : ℕ) → owned o v ≡ owned o s + mark o name + mark o mod_object + mark o func
        total o = omega (
          arith,
          start o,
          subst (IsGiven (set_path python path s)) named
              (counted.unicode_given path.stem (set_path python path s)) o,
          subst (IsGiven t) imported (counted.import_given (some name) t) o,
          subst (IsGiven u) found (counted.attr_given mod_object func_name u) o,
        )
