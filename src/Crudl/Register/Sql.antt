-- ===== src/Crudl/Register/Sql.antt =====
-- The statements that Register builds, against their texts written out.
use go_m.Base.{String, ◌≡◌, refl, ◌≢◌, List, [], ◌∷◌, map}
use go_m.Base.Text.{sprintf, join, ◌<>◌, <>_assoc, <>-nil}
use go_m.Reflect.{Value}
use go_m.Crudl.Scan.{Field, Config}
use go_m.Crudl.Register.{
  or_all, names_of, register_c, register_r, register_u, register_d, register_l,
}

-- A separator with a suffix and a prefix of its own puts these round every entry.
join_wrapped :
    (before after : String) (n : String) (ns : List String)
    → before <> join (n ∷ ns) (after <> "," <> before) <> after
      ≡ join (map (λ x. before <> x <> after) (n ∷ ns)) ","
unfolding join
join_wrapped before after n [] = refl
join_wrapped before after n (m ∷ ms) = rw (← join_wrapped before after m ms) (simp <>_assoc)

join_marked :
    (mark n : String) (ns : List String)
    → mark <> join (n ∷ ns) ("," <> mark) ≡ join (map (λ x. mark <> x) (n ∷ ns)) ","
unfolding join
join_marked mark n [] = refl
join_marked mark n (m ∷ ms) = rw (← join_marked mark m ms) (simp <>_assoc)

-- The fields of a route are none only if the struct has none.
or_all-cons :
    (xs all : List Field) → all ≢ [] → (f : Field) × (fs : List Field) × (or_all xs all ≡ f ∷ fs)
or_all-cons [] [] h = absurd (h refl)
or_all-cons [] (f ∷ fs) h = (f, fs, refl)
or_all-cons (f ∷ fs) all h = (f, fs, refl)

-- The two lists of names that `registerC` and `registerL` write with a separator of their own.
marked_names :
    (mark : String) (xs all : List Field)
    → all ≢ []
    → mark <> join (names_of (or_all xs all)) ("," <> mark)
      ≡ join (map (λ n. mark <> n) (names_of (or_all xs all))) ","
marked_names mark xs all h =
    let (f, fs, e) = or_all-cons xs all h in rw e (join_marked mark f.name (names_of fs))

quoted_names :
    (xs all : List Field)
    → all ≢ []
    → "`" <> join (names_of (or_all xs all)) "`,`" <> "`"
      ≡ join (map (λ n. "`" <> n <> "`") (names_of (or_all xs all))) ","
quoted_names xs all h =
    let (f, fs, e) = or_all-cons xs all h in rw e (join_wrapped "`" "`" f.name (names_of fs))

module _ (C : Type 0) {F : Type 0} (pk : Field) (c : Config (Value F)) (used : c.fields ≢ []) where
  -- The five statements that the registered routes use, for a struct with a working field. In the
  -- INSERT statement every column has the placeholder with its own name, in the UPDATE statement
  -- every column is set to that placeholder, and in the LIST statement every column is quoted; each
  -- statement uses the fields marked for it, and all fields if none is marked.
  pub register_sql :
      let inserted = names_of (or_all c.create_fields c.fields) in
      let updated = names_of (or_all c.update_fields c.fields) in
      let shown = names_of (or_all c.select_fields c.fields) in
      let listed = names_of (or_all c.list_fields c.fields) in
      ((register_c {C = C} pk c).0.sql_crud_create
        ≡ "INSERT INTO `"
          <> c.table_name
          <> "` ("
          <> join inserted ","
          <> ") VALUES ("
          <> join (map (λ n. ":" <> n) inserted) ","
          <> ")")
      × ((register_r {C = C} pk c).0.sql_crud_read
          ≡ "SELECT "
            <> join shown ","
            <> " FROM `"
            <> c.table_name
            <> "` WHERE "
            <> pk.name
            <> " = ?")
      × ((register_u {C = C} pk c).0.sql_crud_update
          ≡ "UPDATE `"
            <> c.table_name
            <> "` SET "
            <> join (map (λ n. "`" <> n <> "` = :" <> n) updated) ","
            <> " WHERE "
            <> pk.name
            <> " = :"
            <> pk.name
            <> ";")
      × ((register_d {C = C} pk c).0.sql_crud_delete
          ≡ "DELETE FROM `" <> c.table_name <> "` WHERE " <> pk.name <> " = ?;")
      × ((register_l {C = C} pk c).0.sql_crud_list
          ≡ "SELECT "
            <> join (map (λ n. "`" <> n <> "`") listed) ","
            <> " FROM `"
            <> c.table_name
            <> "` ORDER by "
            <> pk.name
            <> " DESC LIMIT ?,?;")
  unfolding register_c register_r register_u register_d register_l sprintf
  register_sql = (
    rw (← marked_names ":" c.create_fields c.fields used) refl,
    refl,
    simp <>-nil,
    refl,
    rw (← quoted_names c.list_fields c.fields used) refl,
  )
