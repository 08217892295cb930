-- ===== src/Inventory/Refinement/Operations.antt =====
-- The operations of the repository and of the service over any client and over the documented one.
use practical_microservice.Common.{
  ℕ, ◌≡◌, refl, Bool, arith, List, [], ◌∷◌, Option, none, some, String,
}
use practical_microservice.Inventory.Rules.{Checked}
use practical_microservice.Inventory.Tables.{InventoryItem, FieldChange, Tables}
use practical_microservice.Inventory.Transaction.{bind, give}
use practical_microservice.Inventory.Database.{Database, Agrees, Follows, memory}
use practical_microservice.Inventory.Repository.{
  CreateInventoryItemInput, StockChangePlan, BulkStockChangePlan, ItemMap, IdempotencyKey, Target,
  find_by_id, claim, write_targets, save_changes, apply_stock_change, apply_bulk_stock_change,
}
use practical_microservice.Inventory.Repository
use practical_microservice.Inventory.Repository.Diff.{UpdateInventoryItemInput}
use practical_microservice.Inventory.Service.{read}
use practical_microservice.Common.Int.{pos, ltb_ℤ}
use practical_microservice.Inventory.Statement.{has_id}
use practical_microservice.Inventory.Service.{get_by_id, remove, view_found}
use practical_microservice.Inventory.Refinement.Rules.{
  Agrees-bind_read, Agrees-refl, Agrees-if, follows_rules, Follows-bind, Follows-refl,
  Agrees-transaction,
}

module _ (db : Database) where
  open db use {
    find_unique_lem, find_many_lem, create_item_lem, update_item_lem, update_levels_lem,
    delete_item_lem, create_movements_lem, create_audit_logs_lem, create_processed_lem,
  }

  write_targets-Follows :
      (targets : List Target) → Follows (write_targets db targets) (write_targets memory targets)
  unfolding write_targets
  write_targets-Follows [] = search follows_rules
  write_targets-Follows (target ∷ targets) =
      Follows-bind _ _ _ _ (update_levels_lem target.item.id target.next.next)
        λ updated. Follows-bind _ _ _ _ (write_targets-Follows targets) λ rest. Follows-refl _

  claim-Follows : (key : Option IdempotencyKey) → Follows (claim db key) (claim memory key)
  unfolding claim
  claim-Follows none = search follows_rules
  claim-Follows (some key) = search (follows_rules, create_processed_lem)

  save_changes-Follows :
      (id : ℕ) (input : UpdateInventoryItemInput) (actor : Option String) (current : InventoryItem)
      (changes : List FieldChange)
      → Follows
          (save_changes db id input actor current changes)
          (save_changes memory id input actor current changes)
  unfolding save_changes
  save_changes-Follows id input actor current [] = search follows_rules
  save_changes-Follows id input actor current (change ∷ changes) =
      search (follows_rules, update_item_lem, create_audit_logs_lem, create_movements_lem)

  pub apply_stock_change-Agrees :
      (id : ℕ) (plan : InventoryItem → Checked StockChangePlan)
      → Agrees (apply_stock_change db id plan) (apply_stock_change memory id plan)
  unfolding apply_stock_change find_by_id
  apply_stock_change-Agrees id plan =
      Agrees-transaction db _ _
        (search (follows_rules, find_unique_lem, update_levels_lem, create_movements_lem))

  pub apply_bulk_stock_change-Agrees :
      (products : List ℕ) (plan : ItemMap → Checked (List BulkStockChangePlan))
      (key : Option IdempotencyKey)
      → Agrees
          (apply_bulk_stock_change db products plan key)
          (apply_bulk_stock_change memory products plan key)
  unfolding apply_bulk_stock_change
  apply_bulk_stock_change-Agrees products plan key = Agrees-transaction db _ _ (
      search
        (follows_rules, claim-Follows, find_many_lem, write_targets-Follows, create_movements_lem)
        depth 8)

  pub create-Agrees :
      (id : ℕ) (input : CreateInventoryItemInput)
      → Agrees (Repository.create db id input) (Repository.create memory id input)
  unfolding Repository.create
  create-Agrees id input =
      Agrees-transaction db _ _ (search (follows_rules, create_item_lem, create_movements_lem))

  pub update-Agrees :
      (id : ℕ) (input : UpdateInventoryItemInput) (actor : Option String)
      (validate : InventoryItem → Checked (Unit {0}))
      → Agrees
          (Repository.update db id input actor validate)
          (Repository.update memory id input actor validate)
  unfolding Repository.update find_by_id
  update-Agrees id input actor validate =
      Agrees-transaction db _ _ (search (follows_rules, find_unique_lem, save_changes-Follows))

  pub delete-Agrees : (id : ℕ) → Agrees (Repository.delete db id) (Repository.delete memory id)
  unfolding Repository.delete
  delete-Agrees id = Agrees-transaction db _ _ (delete_item_lem id)

  pub read-Agrees : (test : InventoryItem → Bool) → Agrees (read db test) (read memory test)
  unfolding read
  read-Agrees test = Agrees-transaction db _ _ (find_unique_lem test)

  pub get_by_id-Agrees : (id : ℕ) → Agrees (get_by_id db id) (get_by_id memory id)
  unfolding get_by_id find_by_id
  get_by_id-Agrees id =
      Agrees-bind_read _ (memory.transaction (Option InventoryItem) (find_by_id memory id)) _ _
        (λ t. refl) (Agrees-transaction db _ _ (find_unique_lem (has_id id)))
        (λ found. Agrees-refl _)

  get_by_id_reads : (id : ℕ) (t : Tables) → (get_by_id memory id t).1 ≡ t
  unfolding get_by_id find_by_id view_found bind
  get_by_id_reads id t = ground arith

  pub remove-Agrees : (id : ℕ) → Agrees (remove db id) (remove memory id)
  unfolding remove give
  remove-Agrees id = Agrees-bind_read _ _ _ _ (get_by_id_reads id) (get_by_id-Agrees id) λ view.
      Agrees-if (ltb_ℤ (pos 0) view.item.reserved) _ _ _ _ (Agrees-refl _)
        (Agrees-bind_read _ (give tt) _ _ (λ t. refl) (Agrees-refl _) (λ u. delete-Agrees id))
