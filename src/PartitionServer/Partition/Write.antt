-- ===== src/PartitionServer/Partition/Write.antt =====
-- ps/server/partition_api.go and `Apply` of partition_raft.go: writes and reads of documents.
-- A request union has pointers, and a nil one that is read panics. `unmarshal` is json.Unmarshal.
pub mod Answers
pub mod Served
use baud.Base.{
  ℕ, Bool, true, false, ◌||◌, ltb, Option, none, some, List, [], ◌∷◌, Result, ok, err, Outcome, ret,
  panic, if◌then◌else◌, nat_beq,
}
use baud.Base.Bytes.{Bytes}
use baud.PartitionServer.Engine.{Engine}
use baud.PartitionServer.Partition.{
  Partition, RequestError, partition_not_found, no_leader, server_stopping, shut_down_not_applied,
  shut_down, timed_out, other_error, is_closed_status, not_leader_of, check_readable,
}

pub record CreateRequest : Type 0 where
  pub id : Bytes
  pub doc_data : Bytes

pub record UpdateRequest : Type 0 where
  pub id : Bytes
  pub doc_data : Bytes
  pub upsert : Bool

pub record DeleteRequest : Type 0 where
  pub id : Bytes

pub data OpType : Type 0 where
  create update delete : OpType
  other_op : ℕ → OpType

pub record RequestUnion : Type 0 where
  pub op_type : OpType
  pub create : Option CreateRequest
  pub update : Option UpdateRequest
  pub delete : Option DeleteRequest

pub data WriteResult : Type 0 where
  created updated deleted not_found : WriteResult

-- A create, update or delete response.
pub record DocResponse : Type 0 where
  pub id : Bytes
  pub result : WriteResult

pub record Failure : Type 0 where
  pub id : Bytes
  pub cause : Bytes

pub record ResponseUnion : Type 0 where
  pub op_type : OpType
  pub create : Option DocResponse
  pub update : Option DocResponse
  pub delete : Option DocResponse
  pub failure : Option Failure

abbrev pub empty_response : OpType → ResponseUnion
empty_response op = record {
  op_type = op;
  create = none;
  update = none;
  delete = none;
  failure = none;
}

abbrev pub failed : OpType → Bytes → Bytes → ResponseUnion
failed op id cause = record (empty_response op) {
  failure = some (record { id = id; cause = cause });
}

module _ {S B D : Type 0} (engine : Engine S B D) (unmarshal : Bytes → Result Bytes D) where
  unfoldable pub create_internal : CreateRequest → B → Result Bytes DocResponse × B
  create_internal request batch = elim (unmarshal request.doc_data) [
    | err e ↦ (err e, batch)
    | ok doc ↦
        let r = engine.add_document request.id doc batch in
        elim r.0 [
          | some e ↦ (err e, r.1)
          | none ↦ (ok (record { id = request.id; result = created }), r.1)
        ]
  ]

  unfoldable pub update_internal : UpdateRequest → B → Result Bytes DocResponse × B
  update_internal request batch = elim (unmarshal request.doc_data) [
    | err e ↦ (err e, batch)
    | ok doc ↦
        let r = engine.update_document request.id doc request.upsert batch in
        elim r.0 [
          | err e ↦ (err e, r.1)
          | ok found ↦
              let result =
                if found then updated else if request.upsert then created else not_found in
              (ok (record { id = request.id; result = result }), r.1)
        ]
  ]

  unfoldable pub delete_internal : DeleteRequest → B → Result Bytes DocResponse × B
  delete_internal request batch =
      let r = engine.delete_document request.id batch in
      elim r.0 [
        | err e ↦ (err e, r.1)
        | ok n ↦
            (ok (record { id = request.id; result = if ltb 0 n then deleted else not_found }), r.1)
      ]

  -- The text of `errorPartitonCommand` is a parameter of the functions that return it.
  unfoldable pub exec_one : Bytes → RequestUnion → B → Outcome (ResponseUnion × B)
  unfolding create_internal update_internal delete_internal
  exec_one unsupported cmd batch = elim cmd.op_type [
    | create ↦ elim cmd.create [
      | none ↦ panic
      | some request ↦
          let r = create_internal request batch in
          elim r.0 [
            | ok resp ↦ ret (record (empty_response create) { create = some resp }, r.1)
            | err e ↦ ret (failed create request.id e, r.1)
          ]
    ]
    | update ↦ elim cmd.update [
      | none ↦ panic
      | some request ↦
          let r = update_internal request batch in
          elim r.0 [
            | ok resp ↦ ret (record (empty_response update) { update = some resp }, r.1)
            | err e ↦ ret (failed update request.id e, r.1)
          ]
    ]
    | delete ↦ elim cmd.delete [
      | none ↦ panic
      | some request ↦
          let r = delete_internal request batch in
          elim r.0 [
            | ok resp ↦ ret (record (empty_response delete) { delete = some resp }, r.1)
            | err e ↦ ret (failed delete request.id e, r.1)
          ]
    ]
    | other_op n ↦ ret (failed (other_op n) [] unsupported, batch)
  ]

  unfoldable pub exec_all : Bytes → List RequestUnion → B → Outcome (List ResponseUnion × B)
  exec_all unsupported [] batch = ret ([], batch)
  exec_all unsupported (cmd ∷ cmds) batch = elim (exec_one unsupported cmd batch) [
    | panic ↦ panic
    | ret (resp, next) ↦ elim (exec_all unsupported cmds next) [
      | panic ↦ panic
      | ret (resps, last) ↦ ret (resp ∷ resps, last)
    ]
  ]

  -- The errors of both `SetApplyID` are not looked at. The error of a commit is replaced by one text.
  unfoldable pub exec_write_command :
      Bytes → ℕ → List RequestUnion → S → Outcome (Option (List ResponseUnion) × S)
  unfolding exec_all exec_one
  exec_write_command unsupported index cmds s =
      elim (exec_all unsupported cmds (engine.new_write_batch s)) [
        | panic ↦ panic
        | ret (resps, batch) ↦
            let r = engine.commit (engine.set_batch_apply_id index batch).1 s in
            elim r.0 [
              | some e ↦ ret (none, (engine.set_apply_id index r.1).1)
              | none ↦ ret (some resps, r.1)
            ]
      ]

  -- `none` is a command of another type. The answer is `none` with each error.
  unfoldable pub apply :
      Bytes → Option (List RequestUnion) → ℕ → S → Outcome (Option (List ResponseUnion) × S)
  unfolding exec_write_command
  apply unsupported (some cmds) index s = exec_write_command unsupported index cmds s
  apply unsupported none index s = ret (none, (engine.set_apply_id index s).1)

module _ {S B D : Type 0} (engine : Engine S B D) where
  -- How the context of a request ended, if it did: by its deadline, or with the partition.
  unfoldable pub get_internal :
      ℕ → Option Bool → Bytes → Partition → S → Option D × Option RequestError
  get_internal node_id ended doc_id p s = elim (check_readable true node_id p) [
    | some e ↦ (none, some e)
    | none ↦ (
      engine.get_document doc_id s,
      elim ended [
        | none ↦ none
        | some deadline ↦ if deadline then some timed_out else some shut_down
      ],
    )
  ]

-- What comes of a write that is marshalled and given to raft.
pub data WriteError : Type 0 where
  err_raft_not_exists err_stopped err_not_leader deadline_exceeded : WriteError
  other_write_error : ℕ → WriteError

unfoldable pub fill_bulk_response : Partition → WriteError → Bool → RequestError
fill_bulk_response p err_raft_not_exists done = partition_not_found p.meta.id
fill_bulk_response p err_stopped done = server_stopping
fill_bulk_response p err_not_leader done =
    if nat_beq p.leader 0 then no_leader p.meta.id else not_leader_of p
fill_bulk_response p deadline_exceeded done = timed_out
fill_bulk_response p (other_write_error n) done =
    if done then shut_down_not_applied else other_error n

-- `outcome` is what `bulkInternal` waits for: an error, with whether the context ended, or responses.
unfoldable pub bulk_internal :
    Result (WriteError × Bool) (List ResponseUnion)
    → Partition
    → Result RequestError (List ResponseUnion)
unfolding fill_bulk_response
bulk_internal outcome p =
    if is_closed_status p.meta.status
    then err (partition_not_found p.meta.id)
    else elim outcome [ ok resps ↦ ok resps | err (e, done) ↦ err (fill_bulk_response p e done) ]
