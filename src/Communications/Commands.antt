-- ===== src/Communications/Commands.antt =====
-- Requests on drafts, and runs of them.
use btx_omni_prospect.Prelude.{ℕ, String, Bool, Option, List, [], ◌∷◌, DateTime}
use btx_omni_prospect.Work.Domain.{ApprovalStatus, Principal}
use btx_omni_prospect.Communications.Repository.{Repository}
use btx_omni_prospect.Communications.Service.{
  Runtime, DeliveryPort, EditArgs, edit, decide, preview, send,
}
use btx_omni_prospect.Communications.Creation.{CreateArgs, create}

-- A preview and a delivery carry the port as it answers that call: it may answer the next one, with
-- the same draft and key, differently.
pub data Request : Type 0 where
  creates : CreateArgs → Request
  edits : (id : String) → Principal → DateTime → EditArgs → Option ℕ → Request
  decides : (id : String) → ApprovalStatus → Principal → DateTime → Option ℕ → Request
  previews : DeliveryPort → (id : String) → Principal → DateTime → Request
  sends :
      DeliveryPort
      → (id : String) → Principal
      → DateTime
      → (confirmed : Bool) → (key : String) → Option ℕ
      → Request

-- The repository that a request leaves, whether it returns or raises.
unfoldable pub handle : Runtime → Request → Repository → Repository
handle rt (creates c) r = (create rt c r).1
handle rt (edits id p now c expected) r = (edit id p now c expected r).1
handle rt (decides id decision p now expected) r = (decide id decision p now expected r).1
handle rt (previews port id p now) r = (preview port id p now r).1
handle rt (sends port id p now confirmed key expected) r =
    (send port id p now confirmed key expected r).1

unfoldable pub handle_all : Runtime → List Request → Repository → Repository
handle_all rt [] r = r
handle_all rt (q ∷ qs) r = handle_all rt qs (handle rt q r)
