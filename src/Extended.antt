-- ===== src/Extended.antt =====
-- Policy envelopes and tenant quotas, src/gpuopt/governance_extended.py. Descriptions and times are
-- left out.
mod Envelopes
mod Quotas
mod Operators
mod Enforcement
mod Limits
mod Tests
