-- ===== src/Mysql/Columns.antt =====
-- mysql/map.go and mysql/slice.go: columns that hold JSON. encoding/json is an argument. `M` is the
-- type of the maps or slices that are not nil, and `none` the nil one.
use go_m.Base.{
  String, ◌≡◌, refl, ap, ◌∙◌, ◌⊎◌, inl, inr, Option, none, some, [], ◌∷◌, GoError, plain, List,
}
use go_m.Base.Text.{sprintf}

-- `unmarshal` takes what the destination holds and gives what it leaves there: a JSON null sets the
-- pointer that Scan passes a pointer to, and leaves what that one pointed to.
pub record Json (M : Type 0) : Type 0 where
  pub empty : M
  pub marshal : Option M → GoError ⊎ String
  pub unmarshal : String → M → M × Option GoError

-- What a driver gives for a column: bytes and strings are texts here, and the rest carries the name
-- of its type.
pub data DriverValue : Type 0 where
  byte_value : String → DriverValue
  string_value : String → DriverValue
  other_value : String → DriverValue

abbrev stored : GoError ⊎ String → GoError ⊎ DriverValue
stored (inl e) = inl e
stored (inr text) = inr (byte_value text)

module _ {M : Type 0} (json : Json M) where
  -- Scan of StringMap and of StringSlice: what is left, and the error.
  unfoldable pub scan : DriverValue → M × Option GoError
  unfolding sprintf
  scan (byte_value v) = json.unmarshal v json.empty
  scan (string_value v) = json.unmarshal v json.empty
  scan (other_value type_name) =
      (json.empty, some (plain (sprintf "Unsupported type: %T" (type_name ∷ []))))

  -- Value, whose bytes the driver stores.
  unfoldable pub value : Option M → GoError ⊎ DriverValue
  value m = stored (json.marshal m)

  -- json.Unmarshal into an empty map or slice reads back what json.Marshal has written, and a null,
  -- which json.Marshal writes for nil, leaves the destination as it is.
  pub record JsonLaws : Type 0 where
    pub reads_back :
        (m : M) (text : String)
        → json.marshal (some m) ≡ inr text
        → json.unmarshal text json.empty ≡ (m, none)
    pub writes_null : json.marshal none ≡ inr "null"
    pub reads_null : (m : M) → json.unmarshal "null" m ≡ (m, none)

  scan-stored :
      (r : GoError ⊎ String) (v : DriverValue) (m : M)
      → stored r ≡ inr v
      → ((text : String) → r ≡ inr text → json.unmarshal text json.empty ≡ (m, none))
      → scan v ≡ (m, none)
  unfolding scan
  scan-stored (inl e) v m h read = cc h
  scan-stored (inr text) v m h read =
      let e : v ≡ byte_value text = cc h in ap scan e ∙ read text refl

  -- What Value writes for a map or a slice, Scan reads back; for nil it gives the empty one.
  pub scan-value :
      (laws : JsonLaws) (m : Option M) (v : DriverValue)
      → value m ≡ inr v
      → scan v ≡ (elim m [ none ↦ json.empty | some x ↦ x ], none)
  unfolding value
  scan-value laws none v h = scan-stored (json.marshal none) v json.empty h (λ text e.
      let null : text ≡ "null" = cc (e, laws.writes_null) in
      ap (λ t. json.unmarshal t json.empty) null ∙ laws.reads_null json.empty)
  scan-value laws (some x) v h = scan-stored (json.marshal (some x)) v x h (laws.reads_back x)

-- Scan and Value of StringSlice, whose code is that of StringMap.
abbrev pub scan_slice : Json (List String) → DriverValue → List String × Option GoError
scan_slice json v = scan json v

abbrev pub value_slice : Json (List String) → Option (List String) → GoError ⊎ DriverValue
value_slice json s = value json s
