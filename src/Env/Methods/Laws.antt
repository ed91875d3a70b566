-- ===== src/Env/Methods/Laws.antt =====
-- What the interface promises of `Set` and the lookups, and that both implementations keep it.
use telemd.Base.{◌≡◌, ◌∙◌, refl, sym, true, false, Option, none, some, [], Text, equal, some-inj}
use telemd.Base.Int.{ℤ, IsInt64}
use telemd.Base.Dict.{Dict}
use telemd.Go.Strconv.{WithErr}
use telemd.Go.Decimal.{format_int, parse_int-format_int}
use telemd.Go.Float.{Floats}
use telemd.Env
use telemd.Env.{Environment, Found, IniFile, os_lookup, os_get, os_set, ini_lookup, ini_get}
use telemd.Env.Laws.{os_set-insert, os_lookup-insert, os_lookup-insert_self}
use telemd.Env.Methods.{Methods, os_environment, ini_environment}

-- The value of a variable, empty if it is not present.
abbrev pub or_empty : Option Text → Text
or_empty (some value) = value
or_empty none = []

module _ {F : Floats} {S : Type 0} (parse_duration : Text → WithErr ℤ) (M : Methods F S) where
  -- Every method reads what `Lookup` finds.
  pub record ReadsLookup (s : S) (env : Environment) (key : Text) : Type 0 where
    pub found : M.lookup s key ≡ env key
    pub got : M.get s key ≡ or_empty (env key)
    pub int : M.lookup_int s key ≡ Env.lookup_int env key
    pub float : M.lookup_float s key ≡ Env.lookup_float F env key
    pub bool : M.lookup_bool s key ≡ Env.lookup_bool env key
    pub fields : M.lookup_fields s key ≡ Env.lookup_fields env key
    pub duration : M.lookup_duration s key ≡ Env.lookup_duration parse_duration env key

  pub record IsEnvironment : Type 0 where
    pub reads : (s : S) (key : Text) → ReadsLookup s (M.lookup s) key
    pub set_self :
        (key value : Text) (s s' : S) → M.set key value s ≡ some s' → M.lookup s' key ≡ some value
    pub set_other :
        (key other value : Text) (s s' : S)
        → M.set key value s ≡ some s'
        → equal key other ≡ false
        → M.lookup s' other ≡ M.lookup s other

  -- An integer is found, also as a text and by `LookupInt`.
  pub record Holds (s : S) (key : Text) (a : ℤ) : Type 0 where
    pub found : M.lookup s key ≡ some (format_int a)
    pub text : M.get s key ≡ format_int a
    pub int : M.lookup_int s key ≡ (a, true, none)

  set-Holds :
      (key : Text) (a : ℤ) (s s' : S)
      → IsEnvironment
      → IsInt64 a
      → M.set key (format_int a) s ≡ some s'
      → Holds s' key a
  unfolding Env.lookup_int
  set-Holds key a s s' laws bound e =
      let found = laws.set_self key (format_int a) s s' e in
      record {
        found = found;
        text = (laws.reads s' key).got ∙ rw found refl;
        int =
            (laws.reads s' key).int ∙ rw (Env.lookup_int, found, parse_int-format_int a bound) refl;
      }

  set-ReadsLookup :
      (key other value : Text) (s s' : S)
      → IsEnvironment
      → M.set key value s ≡ some s'
      → equal key other ≡ false
      → ReadsLookup s' (M.lookup s) other
  unfolding Env.lookup_int Env.lookup_float Env.lookup_bool Env.lookup_fields Env.lookup_duration
  set-ReadsLookup key other value s s' laws e ne =
      let same = laws.set_other key other value s s' e ne in
      let now = laws.reads s' other in
      record {
        found = same;
        got = now.got ∙ rw same refl;
        int = now.int ∙ rw (Env.lookup_int, same) refl;
        float = now.float ∙ rw (Env.lookup_float, same) refl;
        bool = now.bool ∙ rw (Env.lookup_bool, same) refl;
        fields = now.fields ∙ rw (Env.lookup_fields, same) refl;
        duration = now.duration ∙ rw (Env.lookup_duration, same) refl;
      }

-- What the ini library's documentation says of `SetValue`, `HasKey` and `Value`.
pub record SetsValue (set_value : IniFile → Text → Text → Text → IniFile) : Type 0 where
  pub has_self :
      (file : IniFile) (section key value : Text)
      → (set_value file section key value).has_key section key ≡ true
  pub value_self :
      (file : IniFile) (section key value : Text)
      → (set_value file section key value).value section key ≡ value
  pub has_other :
      (file : IniFile) (section key other value : Text)
      → equal key other ≡ false
      → (set_value file section key value).has_key section other ≡ file.has_key section other
  pub value_other :
      (file : IniFile) (section key other value : Text)
      → equal key other ≡ false
      → (set_value file section key value).value section other ≡ file.value section other

module _ (F : Floats) (parse_duration : Text → WithErr ℤ) where
  pub os_environment-IsEnvironment : IsEnvironment parse_duration (os_environment F parse_duration)
  unfolding os_get
  os_environment-IsEnvironment = record {
    reads = λ s key. record {
      found = refl;
      got = refl;
      int = refl;
      float = refl;
      bool = refl;
      fields = refl;
      duration = refl;
    };
    set_self =
        λ key value s s' e. rw (os_set-insert key value s e) (os_lookup-insert_self key value s);
    set_other = λ key other value s s' e ne.
        rw (os_set-insert key value s e, os_lookup-insert key other value s, ne) refl;
  }

  pub ini_environment-IsEnvironment :
      (set_value : IniFile → Text → Text → Text → IniFile) (section : Text)
      → SetsValue set_value
      → IsEnvironment parse_duration (ini_environment F parse_duration set_value section)
  unfolding ini_get ini_lookup
  ini_environment-IsEnvironment set_value section h = record {
    reads = λ s key. record {
      found = refl;
      got = refl;
      int = refl;
      float = refl;
      bool = refl;
      fields = refl;
      duration = refl;
    };
    set_self = λ key value s s' e.
        rw (sym (some-inj e), h.has_self s section key value, h.value_self s section key value)
          refl;
    set_other = λ key other value s s' e ne.
        rw
          (
            sym (some-inj e),
            h.has_other s section key other value ne,
            h.value_other s section key other value ne,
          )
          refl;
  }

  -- In either environment a `Set` that does not panic writes an integer in decimal so that `Lookup`
  -- and `Get` give its text and `LookupInt` the integer, as present and with no error; and for any
  -- other key every method that reads answers by what `Lookup` found before. For the ini file this is
  -- where its library keeps to its documentation.
  pub set_and_read :
      (set_value : IniFile → Text → Text → Text → IniFile) (section key other : Text) (a : ℤ)
      (vars vars' : Dict Text) (file : IniFile)
      → SetsValue set_value
      → IsInt64 a
      → equal key other ≡ false
      → os_set key (format_int a) vars ≡ some vars'
      → Holds parse_duration (os_environment F parse_duration) vars' key a
        × ReadsLookup parse_duration (os_environment F parse_duration) vars' (os_lookup vars) other
        × Holds parse_duration
            (ini_environment F parse_duration set_value section)
            (set_value file section key (format_int a))
            key
            a
        × ReadsLookup parse_duration
            (ini_environment F parse_duration set_value section)
            (set_value file section key (format_int a))
            (ini_lookup file section)
            other
  set_and_read set_value section key other a vars vars' file sets bound ne e =
      let ini = ini_environment F parse_duration set_value section in
      let file' = set_value file section key (format_int a) in
      let ini_laws = ini_environment-IsEnvironment set_value section sets in
      (
        set-Holds parse_duration (os_environment F parse_duration) key a vars vars'
            os_environment-IsEnvironment bound e,
        set-ReadsLookup parse_duration (os_environment F parse_duration) key other (format_int a)
            vars vars' os_environment-IsEnvironment e ne,
        set-Holds parse_duration ini key a file file' ini_laws bound refl,
        set-ReadsLookup parse_duration ini key other (format_int a) file file' ini_laws refl ne,
      )
