-- ===== src/PartitionServer/Partition/Write/Answers.antt =====
-- The answers to the writes of a command, and what it does to the engine.
use baud.Base.{
  ◌≡◌, ◌⊎◌, Bool, true, false, none, some, List, [], ◌∷◌, Result, ok, err, Outcome, ret, panic,
  if◌then◌else◌,
}
use baud.Base.Bytes.{Bytes}
use baud.PartitionServer.Engine.{Engine}
use baud.PartitionServer.Partition.Write.{
  CreateRequest, UpdateRequest, DeleteRequest, OpType, create, update, delete, other_op,
  RequestUnion, created, updated, deleted, not_found, ResponseUnion, empty_response, failed,
}

-- The response to a request, or its failure with the cause of an error.
abbrev pub IsAnswer : Bytes → OpType → RequestUnion → ResponseUnion → Type 0
IsAnswer unsupported create cmd resp =
    (request : CreateRequest) × (cmd.create ≡ some request)
    × ((resp ≡ record (empty_response create) {
      create = some (record { id = request.id; result = created });
    })
        ⊎ ((cause : Bytes) × (resp ≡ failed create request.id cause)))
IsAnswer unsupported update cmd resp =
    (request : UpdateRequest) × (cmd.update ≡ some request)
    × (((found : Bool) × (resp ≡ record (empty_response update) {
      update = some (record {
        id = request.id;
        result = if found then updated else if request.upsert then created else not_found;
      });
    }))
        ⊎ ((cause : Bytes) × (resp ≡ failed update request.id cause)))
IsAnswer unsupported delete cmd resp =
    (request : DeleteRequest) × (cmd.delete ≡ some request)
    × (((found : Bool) × (resp ≡ record (empty_response delete) {
      delete = some (record { id = request.id; result = if found then deleted else not_found });
    }))
        ⊎ ((cause : Bytes) × (resp ≡ failed delete request.id cause)))
IsAnswer unsupported (other_op n) cmd resp = resp ≡ failed (other_op n) [] unsupported

-- One answer to each request, in their order.
abbrev pub AreAnswers : Bytes → List RequestUnion → List ResponseUnion → Type 0
AreAnswers unsupported [] [] = Unit
AreAnswers unsupported [] (resp ∷ resps) = ⊥
AreAnswers unsupported (cmd ∷ cmds) [] = ⊥
AreAnswers unsupported (cmd ∷ cmds) (resp ∷ resps) =
    IsAnswer unsupported cmd.op_type cmd resp × AreAnswers unsupported cmds resps

-- The request that the type names is there.
abbrev pub carries : OpType → RequestUnion → Bool
carries create cmd = elim cmd.create [ none ↦ false | some request ↦ true ]
carries update cmd = elim cmd.update [ none ↦ false | some request ↦ true ]
carries delete cmd = elim cmd.delete [ none ↦ false | some request ↦ true ]
carries (other_op n) cmd = true

abbrev pub AllCarry : List RequestUnion → Type 0
AllCarry [] = Unit
AllCarry (cmd ∷ cmds) = (carries cmd.op_type cmd ≡ true) × AllCarry cmds

module _ {S B D : Type 0} (engine : Engine S B D) (unmarshal : Bytes → Result Bytes D) where
  -- The write of a request in a batch: none when its document cannot be read or its type is another.
  abbrev pub written : OpType → RequestUnion → B → B
  written create cmd b = elim cmd.create [
    | none ↦ b
    | some request ↦ elim (unmarshal request.doc_data) [
      | err e ↦ b
      | ok doc ↦ (engine.add_document request.id doc b).1
    ]
  ]
  written update cmd b = elim cmd.update [
    | none ↦ b
    | some request ↦ elim (unmarshal request.doc_data) [
      | err e ↦ b
      | ok doc ↦ (engine.update_document request.id doc request.upsert b).1
    ]
  ]
  written delete cmd b = elim cmd.delete [
    | none ↦ b
    | some request ↦ (engine.delete_document request.id b).1
  ]
  written (other_op n) cmd b = b

  abbrev pub all_written : List RequestUnion → B → B
  all_written [] b = b
  all_written (cmd ∷ cmds) b = all_written cmds (written cmd.op_type cmd b)

  abbrev GivesAnswer : Bytes → OpType → RequestUnion → B → Outcome (ResponseUnion × B) → Type 0
  GivesAnswer unsupported op cmd b panic = ⊥
  GivesAnswer unsupported op cmd b (ret r) =
      IsAnswer unsupported op cmd r.0 × (r.1 ≡ written op cmd b)
