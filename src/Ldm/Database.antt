-- ===== src/Ldm/Database.antt =====
-- dictionary_database.py of the local dynamic map: the containers by their index.
use flex_stack.Prelude.{ℕ, ◌+◌, List, [], ◌∷◌, Bool, true, false, Option, if◌then◌else◌}
use flex_stack.Dicts.{dict_get, dict_set}

-- A data container, a nested dictionary: what the code reads of it, and `==`.
pub record Containers : Type 1 where
  pub Container : Type 0
  pub same : Container → Container → Bool
  pub time_validity : Container → ℕ
  pub timestamp : Container → ℕ

module _ (cs : Containers) where
  open cs use {Container, same}

  pub record DictionaryDataBase : Type 0 where
    pub database : List (ℕ × Container)
    pub next_id : ℕ

  abbrev pub new_database : DictionaryDataBase
  new_database = record { database = []; next_id = 0 }

  unfoldable pub delete : DictionaryDataBase → Bool × DictionaryDataBase
  delete db = (true, new_database)

  unfoldable pub insert_container : Container → DictionaryDataBase → ℕ × DictionaryDataBase
  insert_container container db = (
    db.next_id,
    record { database = dict_set db.next_id container db.database; next_id = db.next_id + 1 },
  )

  unfoldable pub get_container : ℕ → DictionaryDataBase → Option Container
  get_container index db = dict_get index db.database

  unfoldable pub update_container : Container → ℕ → DictionaryDataBase → Bool × DictionaryDataBase
  update_container container index db =
      (true, record db { database = dict_set index container db.database })

  -- `for key, value in items: if value == data_object: del ...; return True`
  abbrev pub remove_first : Container → List (ℕ × Container) → Bool × List (ℕ × Container)
  remove_first data_object [] = (false, [])
  remove_first data_object ((key, value) ∷ d) =
      let (found, rest) = remove_first data_object d in
      if same value data_object then (true, d) else (found, (key, value) ∷ rest)

  unfoldable pub remove_container : Container → DictionaryDataBase → Bool × DictionaryDataBase
  remove_container data_object db =
      let (found, d) = remove_first data_object db.database in (found, record db { database = d })

  abbrev pub values : List (ℕ × Container) → List Container
  values [] = []
  values ((key, value) ∷ d) = value ∷ values d

  unfoldable pub all : DictionaryDataBase → List Container
  all db = values db.database
