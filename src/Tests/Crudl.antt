-- ===== src/Tests/Crudl.antt =====
-- A table of users with a key and a name.
use go_m.Base.{
  ℕ, String, ◌≡◌, refl, ◌≢◌, inl, inr, ◌↔◌, true, none, some, arith, eq_iff, List, [], ◌∷◌, map,
  GoError, plain, wrapped, StringMap,
}
use go_m.Base.Text.{join, ◌<>◌, sprintf}
use go_m.Base.Int.{pos}
use go_m.Reflect.{
  Value, Fields, FieldInfo, field, end, int_value, int64, string_value, struct_value, ptr_value,
  field_list,
}
use go_m.Http.Response.{Writer}
use go_m.Http.Routes.{method_post, cors_headers}
use go_m.Http.Server.{Server, default_config, serve_mux, returned, serve, set_handler_option}
use go_m.Crudl.Serve.{server_route, serve-register_routes}
use go_m.Http.Params.{parse_parameters, build_route_handler}
use go_m.Http.Response.Laws.{sent_status}
use go_m.Crudl.Scan.{Field, Config, empty_config, scan_struct_mysql}
use go_m.Crudl.Scan.Laws.{IsScanned, scan_struct_mysql-IsScanned}
use go_m.Crudl.Register.Checks.{Accepts, struct_of, register_iff}
use go_m.Crudl.Register.{
  register, use_c, register_c, register_r, register_u, register_d, register_l, register_routes,
  table_path,
}
use go_m.Crudl.Register.Sql.{register_sql}
use go_m.Crudl.Query.{Database, create_object}
use go_m.Crudl.Handler.{Service, object, handle_create}
use go_m.Crudl.Handler.Laws.{handle_create_failed, IsAnsweredTwice}
use go_m.Tests.Fixtures.{runtime, request_with, decoders}

abbrev info : String → StringMap String → FieldInfo
info name tags = record { name = name; tags = tags; exported = true; settable = true }

abbrev user_fields : Fields (Unit {0})
user_fields = field (info "ID" (("db", "id,pk") ∷ ("json", "id") ∷ [])) (int_value int64 (pos 0)) (
    field (info "Name" (("db", ",create,validator=name") ∷ ("json", "name") ∷ []))
      (string_value "ann") (field (info "Secret" (("db", "-") ∷ [])) (string_value "") end))

abbrev user : Value (Unit {0})
user = ptr_value (struct_value user_fields)

abbrev id_field : Field
id_field = record { name = "id"; index = 0; json_name = "id" }

abbrev name_field : Field
name_field = record { name = "name"; index = 1; json_name = "name" }

abbrev users : Config (Value (Unit {0}))
users = record (empty_config "users") {
  fields = id_field ∷ name_field ∷ [];
  create_fields = name_field ∷ [];
  pk = some id_field;
  field_validators = ("name", "name") ∷ [];
}

-- The scan of the struct finds the key, the name and its validator, and skips the secret.
scan_users : scan_struct_mysql 0 (field_list user_fields) (empty_config "users") ≡ users
unfolding scan_struct_mysql
scan_users = refl

create_statement :
    (register_c {C = Unit {0}} id_field users).0.sql_crud_create
    ≡ "INSERT INTO `users` (name) VALUES (:name)"
unfolding register_c sprintf join
create_statement = refl

list_statement :
    (register_l {C = Unit {0}} id_field users).0.sql_crud_list
    ≡ "SELECT `id`,`name` FROM `users` ORDER by id DESC LIMIT ?,?;"
unfolding register_l sprintf join
list_statement = refl

scan_struct_mysql-IsScanned_example :
    IsScanned 3
      (scan_struct_mysql 0 (field_list user_fields) (empty_config {O = Value (Unit {0})} "users"))
scan_struct_mysql-IsScanned_example = scan_struct_mysql-IsScanned "users" (field_list user_fields)

-- A database that refuses every statement.
abbrev refusal : GoError
refusal = plain "duplicate entry"

abbrev refusing : Database ℕ (Unit {0})
refusing = record {
  named_exec = λ q v d. (d, inl refusal);
  exec = λ q v d. (d, inl refusal);
  queryx = λ q v d. (d, inl refusal);
}

abbrev service : Service (Unit {0}) ℕ (Unit {0})
service = record { db = refusing; decoders = decoders true; runtime = runtime; empty = user }

abbrev create_refusal : GoError
create_refusal = wrapped "error crud create" refusal

handle_create_failed_example :
    (w' : Writer) × (handle_create service users id_field (request_with "POST") (7, []) ≡ (7, w'))
    × IsAnsweredTwice service users id_field create_refusal "created successfully"
        (object user)
        []
        w'
unfolding create_object sent_status parse_parameters
handle_create_failed_example =
    handle_create_failed service users id_field (request_with "POST") user 7 7 create_refusal []
      refl refl refl

abbrev users_used : ◌≢◌ {A = List Field} (id_field ∷ name_field ∷ []) []
users_used = λ e. cc

register_sql_example :
    ((register_c {C = Unit {0}} id_field users).0.sql_crud_create
      ≡ "INSERT INTO `"
        <> "users"
        <> "` ("
        <> join ("name" ∷ []) ","
        <> ") VALUES ("
        <> join (map (λ n. ":" <> n) ("name" ∷ [])) ","
        <> ")")
    × ((register_r {C = Unit {0}} id_field users).0.sql_crud_read
        ≡ "SELECT "
          <> join ("id" ∷ "name" ∷ []) ","
          <> " FROM `"
          <> "users"
          <> "` WHERE "
          <> "id"
          <> " = ?")
    × ((register_u {C = Unit {0}} id_field users).0.sql_crud_update
        ≡ "UPDATE `"
          <> "users"
          <> "` SET "
          <> join (map (λ n. "`" <> n <> "` = :" <> n) ("id" ∷ "name" ∷ [])) ","
          <> " WHERE "
          <> "id"
          <> " = :"
          <> "id"
          <> ";")
    × ((register_d {C = Unit {0}} id_field users).0.sql_crud_delete
        ≡ "DELETE FROM `" <> "users" <> "` WHERE " <> "id" <> " = ?;")
    × ((register_l {C = Unit {0}} id_field users).0.sql_crud_list
        ≡ "SELECT "
          <> join (map (λ n. "`" <> n <> "`") ("id" ∷ "name" ∷ [])) ","
          <> " FROM `"
          <> "users"
          <> "` ORDER by "
          <> "id"
          <> " DESC LIMIT ?,?;")
register_sql_example = register_sql (Unit {0}) id_field users users_used

register_iff_example :
    (register {C = Unit {0}} true "users" (some user) (use_c ∷ []) ≡ inr (users, [])) ↔ (
      (true ≡ true)
      × (◌≢◌ {A = String} "users" "")
      × Accepts {C = Unit {0}} "users" (use_c ∷ []) (struct_of user) (users, []))
register_iff_example = register_iff true "users" user (use_c ∷ []) (users, [])

abbrev all_used : Config (Value (Unit {0}))
all_used = record users { use_c = true; use_r = true; use_u = true; use_d = true; use_l = true }

abbrev web_server : Server (Unit {0}) (Value (Unit {0})) ℕ
web_server = record {
  config = some default_config;
  http_server = none;
  handler = serve_mux;
  mux = some [];
  worker_pools = [];
  url = "";
  routes = none;
}

-- A DELETE request creates a user.
serve-register_routes_example :
    (server' : Server (Unit {0}) (Value (Unit {0})) ℕ) × (set_handler_option
        (map
          (server_route service (register_routes {C = Unit {0}} id_field all_used).0 id_field)
          (register_routes id_field all_used).1)
        web_server
      ≡ returned server' none)
    × (serve (runtime {V = ℕ}) server' (table_path "users") (request_with "DELETE") (7, [])
        ≡ some (
            build_route_handler method_post
              (register_c id_field all_used).1.validators
              (handle_create service (register_routes {C = Unit {0}} id_field all_used).0 id_field)
              (request_with "DELETE")
              (7, cors_headers)))
serve-register_routes_example =
    serve-register_routes (runtime {V = ℕ}) service id_field all_used web_server refl refl refl
      (request_with "DELETE") (7, []) (ground (arith, eq_iff "DELETE" "OPTIONS"))
