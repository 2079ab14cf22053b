-- ===== src/HomeKit/Climate/Shown.antt =====
-- hkclimate.go with gree.go: what the tile shows after a write that the unit obeys.
