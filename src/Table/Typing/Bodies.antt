-- ===== src/Table/Typing/Bodies.antt =====
-- What the methods of a table do under their lock, by what they take and give, over an operation of mluau.
use gluau.Prelude.{ℕ, Option, some, Bytes, none, [], ◌==◌, if◌then◌else◌}
use gluau.World.{RefKind, LuaValue, error_text, Go, pure, ◌>>=◌, alloc}
use gluau.Mluau.{Mluau, LuaResult}
use gluau.Ffi.Boxes.{read_ref, c_string}
use gluau.Ffi.Tables.{with_table, value_result, box_metatable, metatable_arg}
use gluau.Object.{pointer_no_lock}
use gluau.Handles.{GoLuaVmWrapper, LuaTable}
use gluau.Result.{c_result, go_result, move_error_to_go}
use gluau.Value.Types.{Value}
use gluau.Value.Clone.{c_nil, to_value_from_owned}
use gluau.Value.Convert.{value_to_c, value_from_c}
use gluau.Table.{inner_ptr, or_default, metatable_of, metatable_ptr}
use gluau.Table.Calls.{table_over}

module _ {L : Type 0} (m : Mluau L) (l : Option GoLuaVmWrapper) (o : ℕ) where
  abbrev pub plain_body : {A : Type 0} → A → (ℕ → Go L (LuaResult A)) → Go L A
  plain_body d op = do
    ptr ← pointer_no_lock (some o)
    res ← with_table ptr d (λ r. op r >>= c_result d)
    go_result res

  abbrev pub value_body : (ℕ → Go L (LuaResult LuaValue)) → Go L Value
  value_body op = do
    ptr ← pointer_no_lock (some o)
    res ← with_table ptr c_nil (λ r. op r >>= value_result)
    c ← go_result res
    value_from_c l c

  abbrev pub plain_handing :
      {A : Type 0} → A → Option Value → (ℕ → LuaValue → Go L (LuaResult A)) → Go L A
  plain_handing d x op = do
    ptr ← pointer_no_lock (some o)
    c ← value_to_c m l x
    res ← with_table ptr d (λ r. do a ← to_value_from_owned m c; y ← op r a; c_result d y)
    go_result res

  abbrev pub value_handing : Option Value → (ℕ → LuaValue → Go L (LuaResult LuaValue)) → Go L Value
  value_handing x op = do
    ptr ← pointer_no_lock (some o)
    c ← value_to_c m l x
    res ← with_table ptr c_nil (λ r. do a ← to_value_from_owned m c; y ← op r a; value_result y)
    z ← go_result res
    value_from_c l z

  abbrev pub writing :
      Option Value
      → Option Value
      → (ℕ → LuaValue → LuaValue → Go L (LuaResult (Unit {0})))
      → Go L (Unit {0})
  writing x y op = do
    ptr ← pointer_no_lock (some o)
    c ← value_to_c m l x
    e ← value_to_c m l y
    res ← with_table ptr tt λ r. do
      a ← to_value_from_owned m c
      b ← to_value_from_owned m e
      z ← op r a b
      c_result tt z
    go_result res

  abbrev pub defaulting : {A : Type 0} → A → A → (ℕ → Go L A) → Go L A
  defaulting d e op =
      or_default (table_over l o) d λ p. if p == 0 then pure e else read_ref RefKind.table p >>= op

  abbrev pub finding : (ℕ → Go L (Option ℕ)) → Go L (Option LuaTable)
  finding op = or_default (table_over l o) none λ p.
      (if p == 0
        then pure 0
        else (read_ref RefKind.table p >>= λ t. do mt ← op t; box_metatable m mt))
      >>= metatable_of m (table_over l o)

  abbrev pub showing : (ℕ → Go L Bytes) → Go L Bytes
  showing op = or_default (table_over l o) [] λ p.
      (if p == 0
        then pure 0
        else (read_ref RefKind.table p >>= λ t. do s ← op t; alloc (error_text (c_string s))))
      >>= move_error_to_go

  abbrev pub comparing : {A : Type 0} → A → LuaTable → (ℕ → ℕ → Go L (LuaResult A)) → Go L A
  comparing d other op = do
    ptr ← inner_ptr (table_over l o)
    ptr2 ← inner_ptr other
    res ← with_table ptr d λ r. with_table ptr2 d λ s. do y ← op r s; c_result d y
    go_result res

  abbrev pub setting :
      Option LuaTable → (ℕ → Option ℕ → Go L (LuaResult (Unit {0}))) → Go L (Unit {0})
  setting mt op = do
    ptr ← inner_ptr (table_over l o)
    ptr2 ← metatable_ptr m mt
    res ← with_table ptr tt λ r. do s ← metatable_arg m ptr2; y ← op r s; c_result tt y
    go_result res
