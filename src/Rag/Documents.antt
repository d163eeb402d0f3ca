-- ===== src/Rag/Documents.antt =====
-- The documents of the store, and which of them a search gives.
use cpp_ai_service.Base.{
  ◌≡◌, refl, sym, ap, ◌∙◌, [], ◌∷◌, Option, none, some, Bytes, arith, same_bytes, same_bytes_iff,
  Bool-cases, inl, inr, if◌then◌else◌,
}
use cpp_ai_service.Rag.Store.{RagDocument, RagStore, upsert}

-- The document of an id.
unfoldable pub document_at : Bytes → RagStore → Option RagDocument
document_at id [] = none
document_at id (document ∷ documents) =
    if same_bytes document.id id then some document else document_at id documents

-- After an `upsert` the id has the new document, and every other id the one it had.
pub document_at-upsert :
    (store : RagStore) (document : RagDocument) (id : Bytes)
    → document_at id (upsert store document)
      ≡ (if same_bytes document.id id then some document else document_at id store)
unfolding document_at upsert
document_at-upsert [] document id = refl
document_at-upsert (existing ∷ documents) document id = ground (
  arith,
  document_at-upsert documents document id,
  same_bytes_iff existing.id document.id,
  same_bytes_iff existing.id id,
  same_bytes_iff document.id id,
)

-- No id stands twice.
abbrev pub HasDistinctIds : RagStore → Type 0
HasDistinctIds [] = Unit {0}
HasDistinctIds (document ∷ documents) =
    (document_at document.id documents ≡ none) × HasDistinctIds documents

-- An `upsert` into a store in which no id stands twice keeps it so.
pub upsert-HasDistinctIds :
    (store : RagStore) (document : RagDocument)
    → HasDistinctIds store
    → HasDistinctIds (upsert store document)
unfolding upsert
upsert-HasDistinctIds [] document h = (unfold document_at in refl, tt)
upsert-HasDistinctIds (existing ∷ documents) document h =
    elim (Bool-cases (same_bytes existing.id document.id)) [
      | inl e ↦
          rw (e, upsert)
            (
              ap (λ (id : Bytes). document_at id documents)
                    (sym ((same_bytes_iff existing.id document.id).0 e))
                  ∙ h.0,
              h.1,
            )
      | inr e ↦
          rw (e, upsert)
            (
              document_at-upsert documents document existing.id
                  ∙ ground (
                    arith,
                    h.0,
                    same_bytes_iff document.id existing.id,
                    same_bytes_iff existing.id document.id,
                  ),
              upsert-HasDistinctIds documents document h.1,
            )
    ]
