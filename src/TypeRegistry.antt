-- ===== src/TypeRegistry.antt =====
-- acton-reactive/src/common/ipc/registry.rs: the names under which types of messages cross the IPC
-- boundary, with the functions that (de)serialize them. Those functions are serde's for the type, so
-- they come in with it; the error texts that they answer are texts.
use acton_reactive.Shared.{
  ℕ, ◌≡◌, refl, ◌≢◌, Bool, Option, none, some, List, [], is_some, Result, ok, err,
}
use acton_reactive.Shared.Table.{get, put, get-put_self, get-put_ne}
use acton_reactive.Subscriptions.{Outside}
use acton_reactive.Subscriptions.Patterns.{Text, text_discrete}

-- Messages behind `dyn ActonMessage`, JSON values, and `serde_json::to_vec`.
pub record Serde : Type 1 where
  pub Message : Type 0
  pub Value : Type 0
  pub to_vec : Value → Result Text (List ℕ)

pub data RegistryError : Type 0 where
  unknown_message_type serialization_error : Text → RegistryError

-- `map_err(IpcError::SerializationError)`.
abbrev pub as_serialization_error : {A : Type 0} → Result Text A → Result RegistryError A
as_serialization_error (ok a) = ok a
as_serialization_error (err e) = err (serialization_error e)

-- The texts that `serialize_by_type_id` fails with: its own, and those of a serializer.
pub data SerializeError : Type 0 where
  not_registered : SerializeError
  failed : Text → SerializeError

abbrev pub as_serialize_error : {A : Type 0} → Result Text A → Result SerializeError A
as_serialize_error (ok a) = ok a
as_serialize_error (err e) = err (failed e)

module _ (O : Outside) (D : Serde) where
  open O use {TypeId, type_id_discrete}
  open D use {Message, Value, to_vec}

  -- What `register` needs of a Rust type.
  pub record MessageType : Type 0 where
    pub type_id : TypeId
    pub type_name : Text
    pub from_slice : List ℕ → Result Text Message
    pub to_value : Message → Result Text Value

  pub record IpcTypeRegistry : Type 0 where
    pub deserializers : List (Text × (List ℕ → Result Text Message))
    pub type_id_to_name : List (TypeId × Text)
    pub serializers : List (TypeId × (Message → Result Text Value))

  abbrev pub new_registry : IpcTypeRegistry
  new_registry = record { deserializers = []; type_id_to_name = []; serializers = [] }

  unfoldable pub register_type : IpcTypeRegistry → MessageType → Text → IpcTypeRegistry
  register_type r M name = record {
    deserializers = put text_discrete name M.from_slice r.deserializers;
    type_id_to_name = put type_id_discrete M.type_id name r.type_id_to_name;
    serializers = put type_id_discrete M.type_id M.to_value r.serializers;
  }

  unfoldable pub register_with_type_name : IpcTypeRegistry → MessageType → IpcTypeRegistry
  unfolding register_type
  register_with_type_name r M = register_type r M M.type_name

  unfoldable pub deserialize : IpcTypeRegistry → Text → List ℕ → Result RegistryError Message
  deserialize r type_name bytes = elim (get text_discrete type_name r.deserializers) [
    | none ↦ err (unknown_message_type type_name)
    | some from_slice ↦ as_serialization_error (from_slice bytes)
  ]

  abbrev deserialize_bytes :
      IpcTypeRegistry → Text → Result Text (List ℕ) → Result RegistryError Message
  deserialize_bytes r type_name (err e) = err (serialization_error e)
  deserialize_bytes r type_name (ok bytes) = deserialize r type_name bytes

  unfoldable pub deserialize_value : IpcTypeRegistry → Text → Value → Result RegistryError Message
  unfolding deserialize
  deserialize_value r type_name value = deserialize_bytes r type_name (to_vec value)

  unfoldable pub is_registered : IpcTypeRegistry → Text → Bool
  is_registered r type_name = is_some (get text_discrete type_name r.deserializers)

  unfoldable pub get_type_name_by_id : IpcTypeRegistry → TypeId → Option Text
  get_type_name_by_id r type_id = get type_id_discrete type_id r.type_id_to_name

  unfoldable pub serialize_by_type_id :
      IpcTypeRegistry → TypeId → Message → Result SerializeError Value
  serialize_by_type_id r type_id message = elim (get type_id_discrete type_id r.serializers) [
    | none ↦ err not_registered
    | some serializer ↦ as_serialize_error (serializer message)
  ]

  -- A registered type is (de)serialized by its own functions, under the name that it was registered
  -- with last, and registering it changes nothing for other names and other types.
  pub register_type_lem :
      (r : IpcTypeRegistry) (M : MessageType) (name : Text)
      → let r' = register_type r M name in
        ((bytes : List ℕ) → deserialize r' name bytes ≡ as_serialization_error (M.from_slice bytes))
        × (get_type_name_by_id r' M.type_id ≡ some name)
        × ((m : Message) → serialize_by_type_id r' M.type_id m ≡ as_serialize_error (M.to_value m))
        × ((other : Text) (bytes : List ℕ)
            → name ≢ other
            → deserialize r' other bytes ≡ deserialize r other bytes)
        × ((t : TypeId) → M.type_id ≢ t → get_type_name_by_id r' t ≡ get_type_name_by_id r t)
        × ((t : TypeId) (m : Message)
            → M.type_id ≢ t
            → serialize_by_type_id r' t m ≡ serialize_by_type_id r t m)
  unfolding register_type deserialize get_type_name_by_id serialize_by_type_id
  register_type_lem r M name = (
    λ bytes. rw (deserialize, get-put_self text_discrete name M.from_slice r.deserializers) refl,
    get-put_self type_id_discrete M.type_id name r.type_id_to_name,
    λ m.
        rw (serialize_by_type_id, get-put_self type_id_discrete M.type_id M.to_value r.serializers)
          refl,
    λ other bytes ne.
        rw (deserialize, get-put_ne text_discrete name other M.from_slice r.deserializers ne) refl,
    λ t ne. get-put_ne type_id_discrete M.type_id t name r.type_id_to_name ne,
    λ t m ne.
        rw
          (
            serialize_by_type_id,
            get-put_ne type_id_discrete M.type_id t M.to_value r.serializers ne,
          )
          refl,
  )
