-- ===== src/Timeline/Coalesce/Approved/Coverage.antt =====
-- Approved repairs and the primary track: go/internal/timeline/coalesce.go
-- (CoalesceApprovedOverlappingAdjacentClips).
